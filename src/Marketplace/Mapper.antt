-- ===== src/Marketplace/Mapper.antt =====
-- `ListingProductMapper` of libs/marketplace/identity.py. A set of listing identifiers is the list of
-- its elements, each once.
pub mod Consistent
pub mod Assigned
use agentic_data_engineering.Marketplace.Identity.{is_empty}
use agentic_data_engineering.Base.{
  ℕ, zero, suc, ◌+◌, ◌-◌, ◌*◌, ◌≤◌, ◌<◌, min, String, ◌≡◌, refl, sym, ap, ◌∙◌, ◌≢◌, ◌↔◌, ◌⊎◌, inl,
  inr, Bool, true, false, not, ◌&&◌, ◌||◌, Option, none, some, List, [], ◌∷◌, ◌++◌, map, append-nil,
  append_assoc, arith, ltb, leb, ==_iff, if◌then◌else◌, Bool-cases, Option-cases, is_some, length,
  drop, take, select, exists, count_if, length-append, length-drop, length-select, All, All-append,
  All_map_of,
}
use agentic_data_engineering.Base.Equality.{
  Eq, ◌==◌, nat_eq, string_eq, option_eq, beq_refl, beq-eq, beq_false, beq_sym, beq_cases,
}
use agentic_data_engineering.Base.Dict.{Dict, get, put, remove, get-put, get-remove, dict_laws}
use agentic_data_engineering.Base.Exec.{
  Result, ok, err, Exec, pure, raise, gets, lift, modify, continue, ◌>>=◌, ◌>>◌,
}

pub record Mapper : Type 0 where
  pub listing_to_product : Dict String String
  pub product_to_listings : Dict String (List String)

-- `ListingProductMapper()`
abbrev pub new_mapper : Mapper
new_mapper = record { listing_to_product = []; product_to_listings = [] }

-- `ValueError` of `assign`
pub data AssignError : Type 0 where
  empty_listing_id empty_product_key : AssignError

-- `x in s`
abbrev pub contains : String → List String → Bool
contains x s = exists (λ y. y == x) s

-- `s.add(x)`
unfoldable pub add : String → List String → List String
add x s = if contains x s then s else s ++ x ∷ []

-- `s.discard(x)`
unfoldable pub discard : String → List String → List String
discard x s = select (λ y. not (y == x)) s

-- `self._product_to_listings.get(p, set())`
unfoldable pub listings_of : String → Dict String (List String) → List String
listings_of p d = elim (get p d) [ none ↦ [] | some s ↦ s ]

abbrev pub is_nil : List String → Bool
is_nil [] = true
is_nil (x ∷ xs) = false

-- a set without the listing, and the product without its set if that was the last one
unfoldable pub drop_listing :
    String → String → List String → Dict String (List String) → Dict String (List String)
unfolding discard
drop_listing l old s d =
    let rest = discard l s in if is_nil rest then remove old d else put old rest d

-- the removal of a previous assignment in `assign`
unfoldable pub forget : String → String → Mapper → Dict String (List String)
unfolding drop_listing
forget l p m = elim (get l m.listing_to_product) [
  | none ↦ m.product_to_listings
  | some old ↦ if old == p then m.product_to_listings else elim (get old m.product_to_listings) [
    | none ↦ m.product_to_listings
    | some s ↦ drop_listing l old s m.product_to_listings
  ]
]

-- the two writes of `assign`
unfoldable pub assigned : String → String → Mapper → Mapper
unfolding forget listings_of add
assigned l p m =
    let sets = forget l p m in
    record {
      listing_to_product = put l p m.listing_to_product;
      product_to_listings = put p (add l (listings_of p sets)) sets;
    }

unfoldable pub assign : String → String → Exec Mapper AssignError Unit
unfolding assigned is_empty
assign l p m =
    if is_empty l
    then (err empty_listing_id, m)
    else if is_empty p
    then (err empty_product_key, m)
    else (ok tt, assigned l p m)

unfoldable pub get_product_key : String → Mapper → Option String
get_product_key l m = get l m.listing_to_product

unfoldable pub get_listing_ids : String → Mapper → List String
unfolding listings_of
get_listing_ids p m = listings_of p m.product_to_listings

unfoldable pub has_listing : String → Mapper → Bool
has_listing l m = is_some (get l m.listing_to_product)

unfoldable pub has_product : String → Mapper → Bool
has_product p m = is_some (get p m.product_to_listings)

unfoldable pub listing_count : Mapper → ℕ
listing_count m = length m.listing_to_product

unfoldable pub product_count : Mapper → ℕ
product_count m = length m.product_to_listings

unfoldable pub clear : Mapper → Mapper
clear m = new_mapper

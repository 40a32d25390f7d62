-- ===== src/Marketplace/Identity.antt =====
-- The qualified identifiers of libs/marketplace/identity.py, listing.py and seller.py.
pub mod Roundtrip
use Prim.Native.Char.{code}
use agentic_data_engineering.Base.Texts.{append}
use agentic_data_engineering.Base.{
  ℕ, zero, suc, ◌+◌, ◌-◌, ◌*◌, ◌≤◌, ◌<◌, min, String, ◌≡◌, refl, sym, ap, ◌∙◌, ◌≢◌, ◌↔◌, ◌⊎◌, inl,
  inr, Bool, true, false, not, ◌&&◌, ◌||◌, Option, none, some, List, [], ◌∷◌, ◌++◌, map, append-nil,
  append_assoc, arith, ltb, leb, ==_iff, if◌then◌else◌, Bool-cases, Option-cases, is_some, length,
  drop, take, select, exists, count_if, length-append, length-drop, length-select, All, All-append,
  All_map_of,
}
use agentic_data_engineering.Base.Equality.{
  Eq, ◌==◌, nat_eq, string_eq, option_eq, beq_refl, beq-eq, beq_false, beq_sym, beq_cases,
}
use agentic_data_engineering.Base.Dict.{Dict, get, put, remove, get-put, get-remove, dict_laws}
use agentic_data_engineering.Base.Exec.{
  Result, ok, err, Exec, pure, raise, gets, lift, modify, continue, ◌>>=◌, ◌>>◌,
}

-- `ValueError`, by the test that raises it
pub data IdentityError : Type 0 where
  empty_source empty_identifier invalid_listing_id : IdentityError

-- `not text`
unfoldable pub is_empty : String → Bool
is_empty String.[] = true
is_empty (String.◌∷◌ c s) = false

-- `f"{source}:{identifier}"`
unfoldable pub qualified : String → String → String
unfolding append
qualified source identifier = append source (append ":" identifier)

unfoldable pub build_listing_id : String → String → Result IdentityError String
unfolding qualified is_empty
build_listing_id source raw_listing_id =
    if is_empty source
    then err empty_source
    else if is_empty raw_listing_id
    then err empty_identifier
    else ok (qualified source raw_listing_id)

unfoldable pub build_seller_id : String → String → Result IdentityError String
unfolding qualified is_empty
build_seller_id source raw_seller_id =
    if is_empty source
    then err empty_source
    else if is_empty raw_seller_id
    then err empty_identifier
    else ok (qualified source raw_seller_id)

unfoldable pub build_product_key : String → String → Result IdentityError String
unfolding qualified is_empty
build_product_key source product_identifier =
    if is_empty source
    then err empty_source
    else if is_empty product_identifier
    then err empty_identifier
    else ok (qualified source product_identifier)

-- `text.split(":", maxsplit=1)`, when it has two parts
unfoldable pub split_colon : String → Option (String × String)
split_colon String.[] = none
split_colon (String.◌∷◌ c s) =
    let rest = split_colon s in
    if code c == b':'
    then some ("", s)
    else elim rest [ none ↦ none | some (a, b) ↦ some (String.◌∷◌ c a, b) ]

unfoldable pub listing_id_to_external_id : String → Result IdentityError (String × String)
unfolding split_colon is_empty
listing_id_to_external_id text = elim (split_colon text) [
  | none ↦ err invalid_listing_id
  | some (source, raw_id) ↦
      if is_empty source || is_empty raw_id then err invalid_listing_id else ok (source, raw_id)
]

-- `Seller` and `MarketplaceListing`, with the values of the metadata as they are
pub record Seller (Value : Type 0) : Type 0 where
  pub seller_id : String
  pub source : String
  pub display_name : Option String
  pub metadata : Dict String Value

pub record MarketplaceListing (Value : Type 0) : Type 0 where
  pub listing_id : String
  pub source : String
  pub seller : Option (Seller Value)
  pub product_key : Option String
  pub title : String
  pub url : String
  pub metadata : Dict String Value

-- their properties `qualified_id`
unfoldable pub seller_qualified_id : {Value : Type 0} → Seller Value → String
unfolding qualified
seller_qualified_id s = qualified s.source s.seller_id

unfoldable pub listing_qualified_id : {Value : Type 0} → MarketplaceListing Value → String
unfolding qualified
listing_qualified_id l = qualified l.source l.listing_id

-- Whether a text has a colon.
unfoldable pub has_colon : String → Bool
has_colon String.[] = false
has_colon (String.◌∷◌ c s) = if code c == b':' then true else has_colon s

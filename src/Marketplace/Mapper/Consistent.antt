-- ===== src/Marketplace/Mapper/Consistent.antt =====
-- The two dictionaries of the mapper, and what the writes of `assign` do to them.
use agentic_data_engineering.Marketplace.Mapper.{
  Mapper, new_mapper, contains, add, discard, listings_of, is_nil, drop_listing, forget, assigned,
  get_product_key, get_listing_ids, has_product,
}
use agentic_data_engineering.Base.{
  String, ◌≡◌, refl, sym, ap, ◌∙◌, ◌≢◌, ◌⊎◌, inl, inr, true, false, not, ◌&&◌, ◌||◌, none, some,
  List, [], ◌∷◌, ◌++◌, arith, if◌then◌else◌, Bool-cases, Option-cases, is_some,
}
use agentic_data_engineering.Base.Equality.{
  ◌==◌, nat_eq, string_eq, option_eq, beq_refl, beq_sym, beq_cases,
}
use agentic_data_engineering.Base.Dict.{Dict, get, put, remove, get-put, get-remove}

contains-append :
    (x : String) (s t : List String) → contains x (s ++ t) ≡ (contains x s || contains x t)
contains-append x [] t = refl
contains-append x (y ∷ s) t = ground (arith, contains-append x s t)

contains-add : (x l : String) (s : List String) → contains x (add l s) ≡ ((l == x) || contains x s)
unfolding add
contains-add x l s = elim (beq_cases l x) [
  | inl e ↦ rw e (ground (arith, contains-append x s (x ∷ []), beq_refl x))
  | inr e ↦ ground (arith, contains-append x s (l ∷ []))
]

contains-discard :
    (x l : String) (s : List String) → contains x (discard l s) ≡ (not (l == x) && contains x s)
unfolding discard
contains-discard x l [] = ground arith
contains-discard x l (y ∷ s) = ground (
  arith,
  string_eq.beq_iff y l,
  string_eq.beq_iff y x,
  string_eq.beq_iff l x,
  contains-discard x l s,
)

listings_of-put :
    (p q : String) (s : List String) (d : Dict String (List String))
    → listings_of q (put p s d) ≡ (if p == q then s else listings_of q d)
unfolding listings_of
listings_of-put p q s d = rw (get-put p q s d, listings_of) (ground arith)

listings_of-remove :
    (p q : String) (d : Dict String (List String))
    → listings_of q (remove p d) ≡ (if p == q then [] else listings_of q d)
unfolding listings_of
listings_of-remove p q d = rw (get-remove p q d, listings_of) (ground arith)

nil-is_nil : (s : List String) → is_nil s ≡ true → s ≡ []
nil-is_nil [] h = refl
nil-is_nil (x ∷ s) h = absurd (ground arith)

-- a set that is empty is not kept
listings_of-drop_listing :
    (l old q : String) (s : List String) (d : Dict String (List String))
    → listings_of q (drop_listing l old s d) ≡ (if old == q then discard l s else listings_of q d)
unfolding drop_listing
listings_of-drop_listing l old q s d = elim (Bool-cases (is_nil (discard l s))) [
  | inl e ↦
      rw (e, drop_listing)
        (listings_of-remove old q d
          ∙ ap (λ z. if old == q then z else listings_of q d) (sym (nil-is_nil (discard l s) e)))
  | inr e ↦ rw (e, drop_listing) (listings_of-put old q (discard l s) d)
]

listings_of-none :
    (q : String) (d : Dict String (List String)) → get q d ≡ none → listings_of q d ≡ []
unfolding listings_of
listings_of-none q d h = rw (h, listings_of) refl

listings_of-some :
    (q : String) (s : List String) (d : Dict String (List String))
    → get q d ≡ some s
    → listings_of q d ≡ s
unfolding listings_of
listings_of-some q s d h = rw (h, listings_of) refl

-- A product has a listing in its set exactly when the listing has the product, and no set is empty.
pub record IsConsistent (m : Mapper) : Type 0 where
  pub agree : (l p : String) → contains l (get_listing_ids p m) ≡ (get_product_key l m == some p)
  pub occupied : (p : String) → has_product p m ≡ not (is_nil (get_listing_ids p m))

-- Every product that is a key has a listing.
abbrev Occupied : Dict String (List String) → Type 0
Occupied d = (q : String) → is_some (get q d) ≡ not (is_nil (listings_of q d))

put-Occupied :
    (p : String) (s : List String) (d : Dict String (List String))
    → is_nil s ≡ false
    → Occupied d
    → Occupied (put p s d)
put-Occupied p s d h o q = elim (beq_cases p q) [
  | inl e ↦ rw (listings_of-put p q s d, get-put p q s d) (ground (arith, beq_refl p))
  | inr e ↦ rw (listings_of-put p q s d, get-put p q s d) (ground (arith, o q))
]

remove-Occupied : (p : String) (d : Dict String (List String)) → Occupied d → Occupied (remove p d)
remove-Occupied p d o q = rw (listings_of-remove p q d, get-remove p q d) (ground (arith, o q))

drop_listing-Occupied :
    (l old : String) (s : List String) (d : Dict String (List String))
    → Occupied d
    → Occupied (drop_listing l old s d)
unfolding drop_listing
drop_listing-Occupied l old s d o = elim (Bool-cases (is_nil (discard l s))) [
  | inl e ↦ rw (e, drop_listing) (remove-Occupied old d o)
  | inr e ↦ rw (e, drop_listing) (put-Occupied old (discard l s) d e o)
]

is_nil-add : (x : String) (s : List String) → is_nil (add x s) ≡ false
unfolding add
is_nil-add x [] = refl
is_nil-add x (y ∷ s) = ground arith

module _ (l p : String) (m : Mapper) (c : IsConsistent m) where
  agrees :
      (q : String)
      → contains l (listings_of q m.product_to_listings) ≡ (get l m.listing_to_product == some q)
  agrees q = unfold get_listing_ids get_product_key in c.agree l q

  missing :
      (old : String)
      → contains l (listings_of old m.product_to_listings) ≡ false
      → get l m.listing_to_product ≢ some old
  missing old h e =
      let t : (get l m.listing_to_product == some old) ≡ true = rw e (beq_refl old) in
      ground (arith, agrees old)

  -- what `forget` leaves: all the sets, or those without the listing's old one
  forget_cases :
      ((forget l p m ≡ m.product_to_listings)
        × ((q : String)
            → (p == q) ≡ false
            → contains l (listings_of q m.product_to_listings) ≡ false))
      ⊎ ((old : String) × (s : List String) × (get l m.listing_to_product ≡ some old)
          × ((old == p) ≡ false)
          × (get old m.product_to_listings ≡ some s)
          × (forget l p m ≡ drop_listing l old s m.product_to_listings))
  unfolding forget
  forget_cases = elim (Option-cases (get l m.listing_to_product)) [
    | inl e ↦ inl (rw (e, forget) refl, λ q d. agrees q ∙ rw e refl)
    | inr (old, e) ↦ elim (beq_cases old p) [
      | inl f ↦ inl (rw (e, forget) (rw (f, beq_refl p) refl), λ q d. agrees q ∙ rw (e, f) d)
      | inr f ↦ elim (Option-cases (get old m.product_to_listings)) [
        | inl g ↦
            absurd (
              missing old (ap (λ z. contains l z) (listings_of-none old m.product_to_listings g)) e)
        | inr (s, g) ↦ inr (old, s, e, f, g, rw (e, forget) (rw f (rw g refl)))
      ]
    ]
  ]

  forget-Occupied : Occupied (forget l p m)
  forget-Occupied = elim forget_cases [
    | inl (e, d) ↦ rw e kept
    | inr (old, s, g, d, h, e) ↦ rw e (drop_listing-Occupied l old s m.product_to_listings kept)
  ]
    where
      kept : Occupied m.product_to_listings
      kept q = unfold get_listing_ids has_product in c.occupied q

  -- behind `forget` the listing is in no set but that of the product
  contains-forget :
      (x q : String)
      → contains x (listings_of q (forget l p m)) ≡ (
          if (l == x) && not (p == q)
          then false
          else contains x (listings_of q m.product_to_listings))
  contains-forget x q = elim forget_cases [
    | inl (e, d) ↦
        rw e (elim (beq_cases l x) [ inl f ↦ rw (← f) (ground (arith, d q)) | inr f ↦ rw f refl ])
    | inr (old, s, g, d, h, e) ↦
        rw (e, listings_of-drop_listing l old q s m.product_to_listings)
          (elim (beq_cases old q) [
            | inl f ↦
                let k : listings_of q m.product_to_listings ≡ s =
                  ap (λ z. listings_of z m.product_to_listings) (sym f)
                  ∙ listings_of-some old s m.product_to_listings h in
                let t : (p == q) ≡ false = ap (λ z. p == z) (sym f) ∙ beq_sym p old ∙ d in
                let same : (old == q) ≡ true = ap (λ z. old == z) (sym f) ∙ beq_refl old in
                rw (same, t, k) (contains-discard x l s ∙ ground arith)
            | inr f ↦
                let t : (get l m.listing_to_product == some q) ≡ false = rw g f in
                rw f (elim (beq_cases l x) [
                  | inl i ↦ rw (← i) (ground (arith, agrees q))
                  | inr i ↦ rw i refl
                ])
          ])
  ]

  pub assigned-agree :
      (x q : String)
      → contains x (get_listing_ids q (assigned l p m))
        ≡ (get_product_key x (assigned l p m) == some q)
  unfolding assigned get_listing_ids get_product_key
  assigned-agree x q =
      rw
        (
          listings_of-put p q (add l (listings_of p (forget l p m))) (forget l p m),
          get-put l x p m.listing_to_product,
        )
        (elim (beq_cases p q) [
          | inl e ↦ rw (← e) (
              rw (beq_refl p) (
                contains-add x l (listings_of p (forget l p m))
                ∙ rw (contains-forget x p) (ground (arith, agreed x p, beq_refl p))))
          | inr e ↦ rw e (contains-forget x q ∙ ground (arith, agreed x q))
        ])
    where
      agreed :
          (y r : String)
          → contains y (listings_of r m.product_to_listings)
            ≡ (get y m.listing_to_product == some r)
      agreed y r = c.agree y r

  pub assigned-product : get_product_key l (assigned l p m) ≡ some p
  unfolding assigned get_product_key
  assigned-product = rw (get-put l l p m.listing_to_product, beq_refl l) refl

  pub assigned-occupied :
      (q : String)
      → has_product q (assigned l p m) ≡ not (is_nil (get_listing_ids q (assigned l p m)))
  unfolding assigned get_listing_ids has_product
  assigned-occupied q =
      put-Occupied p (add l (listings_of p (forget l p m))) (forget l p m) (is_nil-add l _)
        forget-Occupied q

pub new_mapper-IsConsistent : IsConsistent new_mapper
unfolding get_listing_ids get_product_key has_product listings_of get
new_mapper-IsConsistent = record { agree = λ l p. refl; occupied = λ p. refl }

-- ===== src/Marketplace/Mapper/Assigned.antt =====
-- The mapper after calls of `assign`.
use agentic_data_engineering.Marketplace.Mapper.Consistent.{
  IsConsistent, assigned-agree, assigned-occupied, assigned-product, new_mapper-IsConsistent,
}
use agentic_data_engineering.Marketplace.Identity.{is_empty}
use agentic_data_engineering.Marketplace.Mapper.{
  Mapper, new_mapper, contains, assign, get_product_key, get_listing_ids,
}
use agentic_data_engineering.Base.{
  String, ◌≡◌, refl, ◌∙◌, inl, inr, some, List, [], ◌∷◌, arith, Bool-cases,
}
use agentic_data_engineering.Base.Equality.{◌==◌, nat_eq, string_eq, option_eq}
use agentic_data_engineering.Base.Exec.{ok}

-- `assign` keeps the two dictionaries of the mapper in agreement, whether it raises or not.
pub assign-IsConsistent :
    (l p : String) (m : Mapper) → IsConsistent m → IsConsistent (assign l p m).1
unfolding assign
assign-IsConsistent l p m c = elim (Bool-cases (is_empty l)) [
  | inl e ↦ rw e c
  | inr e ↦ rw e (elim (Bool-cases (is_empty p)) [
    | inl f ↦ rw f c
    | inr f ↦ rw f (record { agree = assigned-agree l p m c; occupied = assigned-occupied l p m c })
  ])
]

-- Calls of `assign`, one after another; a call that raises leaves the mapper as it is.
pub assign_all : List (String × String) → Mapper → Mapper
assign_all [] m = m
assign_all ((l, p) ∷ rest) m = assign_all rest (assign l p m).1

-- After any calls of `assign` on a new mapper, a listing is in the set of a product exactly when
-- the product is the listing's, and every product that is a key has a listing.
pub assign_all-IsConsistent :
    (calls : List (String × String)) → IsConsistent (assign_all calls new_mapper)
unfolding assign_all
assign_all-IsConsistent calls = from new_mapper calls new_mapper-IsConsistent
  where
    from :
        (m : Mapper) (cs : List (String × String)) → IsConsistent m → IsConsistent (assign_all cs m)
    from m [] c = c
    from m ((l, p) ∷ cs) c = from (assign l p m).1 cs (assign-IsConsistent l p m c)

-- A listing that was assigned has the product and no other: the product's set holds it, and the set
-- of every other product does not.
pub assign-moves :
    (l p q : String) (m : Mapper)
    → IsConsistent m
    → (assign l p m).0 ≡ ok tt
    → (get_product_key l (assign l p m).1 ≡ some p)
      × (contains l (get_listing_ids q (assign l p m).1) ≡ (p == q))
unfolding assign
assign-moves l p q m c h = elim (Bool-cases (is_empty l)) [
  | inl e ↦ absurd (ground arith)
  | inr e ↦ elim (Bool-cases (is_empty p)) [
    | inl f ↦ absurd (ground arith)
    | inr f ↦
        rw (e, f)
          (
            assigned-product l p m c,
            assigned-agree l p m c l q ∙ rw (assigned-product l p m c) refl,
          )
  ]
]

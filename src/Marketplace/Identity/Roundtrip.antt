-- ===== src/Marketplace/Identity/Roundtrip.antt =====
-- Building a listing identifier and taking it apart.
use agentic_data_engineering.Marketplace.Identity.{
  qualified, build_listing_id, split_colon, listing_id_to_external_id, has_colon,
  MarketplaceListing, listing_qualified_id,
}
use Prim.Native.Char.{code}
use text.Mathlib.TextEquality.{Char-path}
use agentic_data_engineering.Base.Texts.{append}
use agentic_data_engineering.Base.{
  String, ◌≡◌, refl, sym, ap, ◌∙◌, inl, inr, false, Option, some, arith, Option-cases,
}
use agentic_data_engineering.Base.Equality.{nat_eq, string_eq, option_eq, beq_cases}
use agentic_data_engineering.Base.Exec.{ok}

split_colon-qualified :
    (s t : String) → has_colon s ≡ false → split_colon (qualified s t) ≡ some (s, t)
unfolding split_colon qualified append has_colon
split_colon-qualified String.[] t h = refl
split_colon-qualified (String.◌∷◌ c s) t h = ground (arith, split_colon-qualified s t)

-- An identifier that was built from a source without a colon comes apart into the source and the
-- raw identifier that it was built from.
pub listing_id_to_external_id-build_listing_id :
    (source raw_id id : String)
    → has_colon source ≡ false
    → build_listing_id source raw_id ≡ ok id
    → listing_id_to_external_id id ≡ ok (source, raw_id)
unfolding listing_id_to_external_id build_listing_id
listing_id_to_external_id-build_listing_id source raw_id id h e =
    ground (arith, split_colon-qualified source raw_id)

qualified-split_colon : (s a b : String) → split_colon s ≡ some (a, b) → qualified a b ≡ s
unfolding split_colon qualified append
qualified-split_colon String.[] a b h = absurd (ground arith)
qualified-split_colon (String.◌∷◌ c s) a b h = elim (beq_cases (code c) b':') [
  | inl colon ↦
      let e : a ≡ "" = ground arith in
      let f : b ≡ s = ground arith in
      rw (e, f) (ap (λ z. String.◌∷◌ z s) (Char-path ":" c (sym colon)))
  | inr other ↦ elim (Option-cases (split_colon s)) [
    | inl e ↦ absurd (ground arith)
    | inr ((x, y), e) ↦
        let f : a ≡ String.◌∷◌ c x = ground arith in
        let g : b ≡ y = ground arith in
        rw (f, g) (ap (λ z. String.◌∷◌ c z) (qualified-split_colon s x y e))
  ]
]

-- A text that comes apart is the identifier that its two parts build.
pub build_listing_id-listing_id_to_external_id :
    (id source raw_id : String)
    → listing_id_to_external_id id ≡ ok (source, raw_id)
    → build_listing_id source raw_id ≡ ok id
unfolding listing_id_to_external_id build_listing_id
build_listing_id-listing_id_to_external_id id source raw_id h =
    elim (Option-cases (split_colon id)) [
      | inl e ↦ absurd (ground arith)
      | inr ((x, y), e) ↦ ground (arith, qualified-split_colon id x y e)
    ]

-- Of two listings whose sources have no colon, the qualified identifiers are equal only if the
-- sources are equal and the listing identifiers are.
pub listing_qualified_id_injective :
    {Value : Type 0} (l k : MarketplaceListing Value)
    → has_colon l.source ≡ false
    → has_colon k.source ≡ false
    → listing_qualified_id l ≡ listing_qualified_id k
    → (l.source ≡ k.source) × (l.listing_id ≡ k.listing_id)
unfolding listing_qualified_id
listing_qualified_id_injective l k hl hk e =
    let a : Option (String × String) = some (l.source, l.listing_id) in
    let b : Option (String × String) = some (k.source, k.listing_id) in
    let p : a ≡ b =
      sym (split_colon-qualified l.source l.listing_id hl)
      ∙ ap split_colon e
      ∙ split_colon-qualified k.source k.listing_id hk in
    ground arith

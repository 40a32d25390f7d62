-- ===== src/Marketplace/Products/Chosen.antt =====
-- Which identifier a listing's metadata gives: the first key that has a valid value.
use mathlib.Core.Option
use mathlib.Core.Path.{subst}
use agentic_data_engineering.Marketplace.Identity.{is_empty, qualified, build_product_key}
use agentic_data_engineering.Marketplace.Products.{
  Python, ProductIdKey, gtin, upc, ean, isbn, asin, mpn, key_name, product_id_keys, matches,
  candidate, first_identifier, extract_product_identifier_from_metadata,
  derive_product_key_from_listing,
}
use agentic_data_engineering.Base.{
  String, ◌≡◌, refl, ap, inl, inr, true, false, Option, none, some, List, [], ◌∷◌, ◌++◌, arith,
  Option-cases, All,
}
use agentic_data_engineering.Base.Equality.{nat_eq, string_eq, option_eq}
use agentic_data_engineering.Base.Dict.{Dict, get}
use agentic_data_engineering.Base.Exec.{ok}

module _ (Py : Python) (metadata : Dict String (Option Py.Value)) where
  -- A key has this value: it is among the metadata and not `None`, its stripped text is the value and
  -- not empty, and the text matches the pattern of the key.
  abbrev pub HasValue : ProductIdKey → String → Type 0
  HasValue key value =
      (raw : Py.Value) × (get (key_name key) metadata ≡ some (some raw))
      × (Py.strip (Py.str raw) ≡ value)
      × (is_empty value ≡ false)
      × (matches Py key value ≡ true)

  -- A key that has no valid value.
  abbrev pub IsUnusable : ProductIdKey → Type 0
  IsUnusable key = (value : String) → ¬ HasValue key value

  -- The choice among the keys: the first with a valid value, with the keys before it unusable; or
  -- none, with every key unusable.
  abbrev pub IsChoice : List ProductIdKey → Option (ProductIdKey × String) → Type 0
  IsChoice keys none = All IsUnusable keys
  IsChoice keys (some (key, value)) =
      (before : List ProductIdKey) × (behind : List ProductIdKey) × (keys ≡ before ++ key ∷ behind)
      × All IsUnusable before
      × HasValue key value

  candidate-HasValue :
      (key : ProductIdKey) (value : String)
      → candidate Py metadata key ≡ some value
      → HasValue key value
  unfolding candidate
  candidate-HasValue key value h = elim (Option-cases (get (key_name key) metadata)) [
    | inl e ↦ absurd (ground arith)
    | inr (none, e) ↦ absurd (ground arith)
    | inr (some raw, e) ↦ (raw, e, ground arith, ground arith, ground arith)
  ]

  candidate_of :
      (key : ProductIdKey) (value : String)
      → HasValue key value
      → candidate Py metadata key ≡ some value
  unfolding candidate
  candidate_of key value (raw, e, t, n, m) = rw (e, candidate) (rw t (rw (n, m) refl))

  candidate-IsUnusable : (key : ProductIdKey) → candidate Py metadata key ≡ none → IsUnusable key
  candidate-IsUnusable key h value v = absurd (ground (arith, candidate_of key value v))

  later :
      (k : ProductIdKey) (keys : List ProductIdKey) (x : Option (ProductIdKey × String))
      → IsUnusable k
      → IsChoice keys x
      → IsChoice (k ∷ keys) x
  later k keys none u h = (u, h)
  later k keys (some (key, value)) u (before, behind, e, us, c) =
      (k ∷ before, behind, ap (λ z. k ∷ z) e, (u, us), c)

  first_identifier-IsChoice :
      (keys : List ProductIdKey) → IsChoice keys (first_identifier Py keys metadata)
  unfolding first_identifier
  first_identifier-IsChoice [] = tt
  first_identifier-IsChoice (k ∷ keys) = elim (Option-cases (candidate Py metadata k)) [
    | inl e ↦
        rw (e, first_identifier)
          (later k keys (first_identifier Py keys metadata) (candidate-IsUnusable k e)
            (first_identifier-IsChoice keys))
    | inr (v, e) ↦ rw (e, first_identifier) ([], keys, refl, tt, candidate-HasValue k v e)
  ]

  -- The identifier of a listing is that of the first key, in the order GTIN, UPC, EAN, ISBN, ASIN, MPN,
  -- whose value in the metadata is there, is not empty when it is stripped, and matches the pattern of
  -- the key; it is missing exactly when no key has such a value.
  pub extract_product_identifier_from_metadata-IsChoice :
      IsChoice
        (gtin ∷ upc ∷ ean ∷ isbn ∷ asin ∷ mpn ∷ [])
        (extract_product_identifier_from_metadata Py metadata)
  unfolding extract_product_identifier_from_metadata
  extract_product_identifier_from_metadata-IsChoice = first_identifier-IsChoice product_id_keys

  choice-matches :
      (keys : List ProductIdKey) (key : ProductIdKey) (value : String)
      → IsChoice keys (some (key, value))
      → (is_empty value ≡ false) × (matches Py key value ≡ true)
  choice-matches keys key value (before, behind, e, us, c) = (c.3, c.4)

  -- An identifier that is found is not empty and matches the pattern of its key.
  pub extracted-matches :
      (key : ProductIdKey) (value : String)
      → extract_product_identifier_from_metadata Py metadata ≡ some (key, value)
      → (is_empty value ≡ false) × (matches Py key value ≡ true)
  extracted-matches key value h =
      choice-matches product_id_keys key value
        (subst (IsChoice product_id_keys) h extract_product_identifier_from_metadata-IsChoice)

  -- From a source that is not empty the derivation never raises: the product key is the source with
  -- the identifier that was found, and it is missing when none was.
  pub derive_product_key_from_listing-ok :
      (source listing_id : String)
      → is_empty source ≡ false
      → derive_product_key_from_listing Py source listing_id metadata
        ≡ ok (
            Option.map
              (λ x. qualified source x.1)
              (extract_product_identifier_from_metadata Py metadata))
  unfolding derive_product_key_from_listing build_product_key
  derive_product_key_from_listing-ok source listing_id s =
      elim (Option-cases (extract_product_identifier_from_metadata Py metadata)) [
        | inl e ↦ rw (e, derive_product_key_from_listing) refl
        | inr ((key, value), e) ↦
            rw (e, derive_product_key_from_listing)
              (rw (s, build_product_key) (rw ((extracted-matches key value e).0) refl))
      ]

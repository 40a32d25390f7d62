-- ===== src/Marketplace/Products.antt =====
-- The product identifiers of libs/marketplace/identity.py: the patterns, the choice among the
-- metadata of a listing, and the product key.
pub mod Chosen
use Prim.Native.Char.{code}
use agentic_data_engineering.Marketplace.Identity.{IdentityError, is_empty, build_product_key}
use agentic_data_engineering.Base.{
  ℕ, zero, suc, ◌+◌, ◌-◌, ◌*◌, ◌≤◌, ◌<◌, min, String, ◌≡◌, refl, sym, ap, ◌∙◌, ◌≢◌, ◌↔◌, ◌⊎◌, inl,
  inr, Bool, true, false, not, ◌&&◌, ◌||◌, Option, none, some, List, [], ◌∷◌, ◌++◌, map, append-nil,
  append_assoc, arith, ltb, leb, ==_iff, if◌then◌else◌, Bool-cases, Option-cases, is_some, length,
  drop, take, select, exists, count_if, length-append, length-drop, length-select, All, All-append,
  All_map_of,
}
use agentic_data_engineering.Base.Equality.{
  Eq, ◌==◌, nat_eq, string_eq, option_eq, beq_refl, beq-eq, beq_false, beq_sym, beq_cases,
}
use agentic_data_engineering.Base.Dict.{Dict, get, put, remove, get-put, get-remove, dict_laws}
use agentic_data_engineering.Base.Exec.{
  Result, ok, err, Exec, pure, raise, gets, lift, modify, continue, ◌>>=◌, ◌>>◌,
}

-- What the module takes from Python: the metadata's values as texts, `str.strip`, and the characters
-- that `\d` matches, which are the decimal digits of every script.
pub record Python : Type 1 where
  pub Value : Type 0
  pub str : Value → String
  pub strip : String → String
  pub is_decimal : ℕ → Bool

-- `_PRODUCT_ID_KEYS`
pub data ProductIdKey : Type 0 where
  gtin upc ean isbn asin mpn : ProductIdKey

abbrev pub product_id_keys : List ProductIdKey
product_id_keys = gtin ∷ upc ∷ ean ∷ isbn ∷ asin ∷ mpn ∷ []

unfoldable pub key_name : ProductIdKey → String
key_name gtin = "gtin"
key_name upc = "upc"
key_name ean = "ean"
key_name isbn = "isbn"
key_name asin = "asin"
key_name mpn = "mpn"

between : ℕ → ℕ → ℕ → Bool
between a b n = leb a n && leb n b

-- `[A-Z0-9]` and `[A-Za-z0-9\-_.]`
is_asin_char : ℕ → Bool
unfolding between
is_asin_char c = between b'A' b'Z' c || between b'0' b'9' c

is_mpn_char : ℕ → Bool
unfolding between is_asin_char
is_mpn_char c = is_asin_char c || between b'a' b'z' c || c == b'-' || c == b'_' || c == b'.'

-- between so many characters of a class, and nothing else
unfoldable pub repeated : (ℕ → Bool) → ℕ → ℕ → String → Bool
repeated p low high String.[] = leb low 0
repeated p low zero (String.◌∷◌ c s) = false
repeated p low (suc high) (String.◌∷◌ c s) =
    let rest = repeated p (low - 1) high s in p (code c) && rest

module _ (Py : Python) where
  open Py use {Value, str, strip, is_decimal}

  -- `\d{n}[\dX]`, and nothing else
  unfoldable pub isbn_tail : ℕ → String → Bool
  isbn_tail zero (String.◌∷◌ c String.[]) = is_decimal (code c) || code c == b'X'
  isbn_tail (suc n) (String.◌∷◌ c s) = let rest = isbn_tail n s in is_decimal (code c) && rest
  isbn_tail _ _ = false

  -- `97[89]`, and then the pattern
  unfoldable pub isbn_prefixed : String → Bool
  unfolding isbn_tail
  isbn_prefixed (String.◌∷◌ a (String.◌∷◌ b (String.◌∷◌ c s))) =
      code a == b'9' && code b == b'7' && (code c == b'8' || code c == b'9') && isbn_tail 9 s
  isbn_prefixed _ = false

  -- `_GTIN_PATTERNS`, on a text without a line break at its end
  unfoldable pub matches : ProductIdKey → String → Bool
  unfolding repeated isbn_prefixed is_asin_char is_mpn_char
  matches gtin s = repeated is_decimal 8 14 s
  matches upc s = repeated is_decimal 12 12 s
  matches ean s = repeated is_decimal 13 13 s
  matches isbn s = isbn_tail 9 s || isbn_prefixed s
  matches asin s = repeated is_asin_char 10 10 s
  matches mpn s = repeated is_mpn_char 4 30 s

  -- the body of the loop: the value of a key, unless it is missing, `None`, empty or malformed
  unfoldable pub candidate : Dict String (Option Value) → ProductIdKey → Option String
  unfolding key_name matches is_empty
  candidate metadata key = elim (get (key_name key) metadata) [
    | none ↦ none
    | some none ↦ none
    | some (some value) ↦
        let value_str = strip (str value) in
        if is_empty value_str then none else if matches key value_str then some value_str else none
  ]

  -- the loop over the keys that are left
  unfoldable pub first_identifier :
      List ProductIdKey → Dict String (Option Value) → Option (ProductIdKey × String)
  unfolding candidate
  first_identifier [] metadata = none
  first_identifier (key ∷ keys) metadata =
      let rest = first_identifier keys metadata in
      elim (candidate metadata key) [ none ↦ rest | some value ↦ some (key, value) ]

  unfoldable pub extract_product_identifier_from_metadata :
      Dict String (Option Value) → Option (ProductIdKey × String)
  unfolding first_identifier
  extract_product_identifier_from_metadata metadata = first_identifier product_id_keys metadata

  -- the listing identifier is not used
  unfoldable pub derive_product_key_from_listing :
      String → String → Dict String (Option Value) → Result IdentityError (Option String)
  unfolding extract_product_identifier_from_metadata build_product_key
  derive_product_key_from_listing source listing_id metadata =
      elim (extract_product_identifier_from_metadata metadata) [
        | none ↦ ok none
        | some (key, value) ↦ elim (build_product_key source value) [
          | ok k ↦ ok (some k)
          | err e ↦ err e
        ]
      ]

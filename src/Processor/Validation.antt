-- ===== src/Processor/Validation.antt =====
-- services/processor/data_validation.py.
pub mod Reasons
pub mod Rules
use Prim.Native.Char.{code}
use agentic_data_engineering.Processor.Columns.{Polars, Row}
use agentic_data_engineering.Base.Texts.{append}
use agentic_data_engineering.Base.{
  ℕ, zero, suc, ◌+◌, ◌-◌, ◌*◌, ◌≤◌, ◌<◌, min, String, ◌≡◌, refl, sym, ap, ◌∙◌, ◌≢◌, ◌↔◌, ◌⊎◌, inl,
  inr, Bool, true, false, not, ◌&&◌, ◌||◌, Option, none, some, List, [], ◌∷◌, ◌++◌, map, append-nil,
  append_assoc, arith, ltb, leb, ==_iff, if◌then◌else◌, Bool-cases, Option-cases, is_some, length,
  drop, take, select, exists, count_if, length-append, length-drop, length-select, All, All-append,
  All_map_of,
}
use agentic_data_engineering.Base.Equality.{
  Eq, ◌==◌, nat_eq, string_eq, option_eq, beq_refl, beq-eq, beq_false, beq_sym, beq_cases,
}
use agentic_data_engineering.Base.Dict.{Dict, get, put, remove, get-put, get-remove, dict_laws}
use agentic_data_engineering.Base.Exec.{
  Result, ok, err, Exec, pure, raise, gets, lift, modify, continue, ◌>>=◌, ◌>>◌,
}

-- `Availability` of libs/event_contracts/product_observation.py, with `.value`
pub data Availability : Type 0 where
  in_stock out_of_stock preorder unknown : Availability

unfoldable pub availability_value : Availability → String
availability_value in_stock = "in_stock"
availability_value out_of_stock = "out_of_stock"
availability_value preorder = "preorder"
availability_value unknown = "unknown"

-- `sorted(_VALID_AVAILABILITY)`, `sorted(SUPPORTED_SCHEMA_VERSIONS)`
abbrev pub valid_avails : List String
valid_avails = "in_stock" ∷ "out_of_stock" ∷ "preorder" ∷ "unknown" ∷ []

abbrev pub supported_versions : List ℕ
supported_versions = 1 ∷ []

-- `pl.when(test).then(pl.lit(reason)).otherwise(None)`
abbrev pub when : Bool → String → Option String
when test reason = if test then some reason else none

-- `~col.is_in(values)`, which is null, and so no violation, at a null
abbrev pub not_in {ℓ} : {A : Type ℓ} ⦃e : Eq A⦄ → List A → Option A → Bool
not_in values none = false
not_in values (some a) = not (exists (λ v. v == a) values)

is_upper : ℕ → Bool
is_upper c = leb b'A' c && leb c b'Z'

-- `_CURRENCY_PATTERN`: three upper-case letters and nothing else
unfoldable pub is_currency : String → Bool
unfolding is_upper
is_currency (String.◌∷◌ a (String.◌∷◌ b (String.◌∷◌ c String.[]))) =
    is_upper (code a) && is_upper (code b) && is_upper (code c)
is_currency _ = false

abbrev pub bad_currency : Option String → Bool
bad_currency none = false
bad_currency (some c) = not (is_currency c)

module _ (P : Polars) where
  open P use {is_negative}

  abbrev pub negative_price : Option P.Price → Bool
  negative_price none = false
  negative_price (some p) = is_negative p

  -- `_build_error_expressions`, at a row
  unfoldable pub error_expressions : Row P → List (Option String)
  unfolding is_currency
  error_expressions r =
      when (not (is_some r.event_id)) "null_required:event_id"
      ∷ when (not (is_some r.event_type)) "null_required:event_type"
      ∷ when (not (is_some r.schema_version)) "null_required:schema_version"
      ∷ when (not (is_some r.source)) "null_required:source"
      ∷ when (not (is_some r.produced_at)) "null_required:produced_at"
      ∷ when (not (is_some r.external_id)) "null_required:external_id"
      ∷ when (not (is_some r.name)) "null_required:name"
      ∷ when (not (is_some r.url)) "null_required:url"
      ∷ when (not (is_some r.currency)) "null_required:currency"
      ∷ when (not (is_some r.availability)) "null_required:availability"
      ∷ when (not (is_some r.category)) "null_required:category"
      ∷ when (not (is_some r.collected_at)) "null_required:collected_at"
      ∷ when (negative_price r.price) "negative_price"
      ∷ when (not_in valid_avails r.availability)
          "invalid_availability:allowed={in_stock,out_of_stock,preorder,unknown}"
      ∷ when (not_in supported_versions r.schema_version) "unsupported_schema_version:allowed={1}"
      ∷ when (bad_currency r.currency) "invalid_currency_format"
      ∷ []

-- `concat_str(…, separator="; ", ignore_nulls=True)`: the reasons that are there, or ""
unfoldable pub collect : List (Option String) → List String
collect [] = []
collect (none ∷ es) = collect es
collect (some t ∷ es) = t ∷ collect es

unfoldable pub join : List String → String
unfolding append
join [] = ""
join (t ∷ []) = t
join (t ∷ ts) = append t (append "; " (join ts))

-- `str.len_chars() > 0`
unfoldable pub has_chars : String → Bool
has_chars String.[] = false
has_chars (String.◌∷◌ c s) = true

module _ (P : Polars) where
  unfoldable pub row_errors : Row P → String
  unfolding error_expressions collect join
  row_errors r = join (collect (error_expressions P r))

  pub record ValidationResult : Type 0 where
    pub valid : List (Row P)
    pub invalid : List (Row P × String)

  unfoldable pub has_errors : Row P → Bool
  unfolding row_errors has_chars
  has_errors r = has_chars (row_errors r)

  -- the rows with errors, each with the column `_validation_errors`
  unfoldable pub rejected : List (Row P) → List (Row P × String)
  unfolding has_errors
  rejected [] = []
  rejected (r ∷ df) =
      let rest = rejected df in if has_errors r then (r, row_errors r) ∷ rest else rest

  unfoldable pub validate : List (Row P) → ValidationResult
  unfolding rejected
  validate df = record { valid = select (λ r. not (has_errors r)) df; invalid = rejected df }

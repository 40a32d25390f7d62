-- ===== src/Processor/Validation/Rules.antt =====
-- Which rows `validate` accepts, against the rules written out.
use agentic_data_engineering.Processor.Columns.{Polars, Row}
use agentic_data_engineering.Processor.Validation.{
  valid_avails, is_currency, negative_price, error_expressions, has_chars, row_errors, has_errors,
  rejected, validate, when,
}
use agentic_data_engineering.Processor.Validation.Reasons.{IsReason, has_chars-join-collect}
use agentic_data_engineering.Base.{
  ◌+◌, String, ◌≡◌, refl, sym, ◌∙◌, ◌↔◌, inl, inr, Bool, true, false, not, some, List, [], ◌∷◌,
  arith, Bool-cases, is_some, length, select, exists, All,
}
use agentic_data_engineering.Base.Equality.{◌==◌, nat_eq, string_eq, option_eq}

module _ (P : Polars) where
  -- The rules of the module's text: twelve columns are there, the price is not negative, and the
  -- availability, the schema version and the currency are among the allowed ones.
  pub record MeetsRules (r : Row P) : Type 0 where
    pub event_id : is_some r.event_id ≡ true
    pub event_type : is_some r.event_type ≡ true
    pub schema_version : r.schema_version ≡ some 1
    pub source : is_some r.source ≡ true
    pub produced_at : is_some r.produced_at ≡ true
    pub external_id : is_some r.external_id ≡ true
    pub name : is_some r.name ≡ true
    pub url : is_some r.url ≡ true
    pub price : negative_price P r.price ≡ false
    pub currency : (c : String) × (r.currency ≡ some c) × (is_currency c ≡ true)
    pub availability :
        (a : String) × (r.availability ≡ some a) × (exists (λ v. v == a) valid_avails ≡ true)
    pub category : is_some r.category ≡ true
    pub collected_at : is_some r.collected_at ≡ true

  when-IsReason : (test : Bool) (t : String) → has_chars t ≡ true → IsReason (when test t)
  when-IsReason true t h = h
  when-IsReason false t h = tt

  error_expressions-IsReason : (r : Row P) → All IsReason (error_expressions P r)
  unfolding error_expressions has_chars
  error_expressions-IsReason r = (
    when-IsReason _ "null_required:event_id" refl,
    (
      when-IsReason _ "null_required:event_type" refl,
      (
        when-IsReason _ "null_required:schema_version" refl,
        (
          when-IsReason _ "null_required:source" refl,
          (
            when-IsReason _ "null_required:produced_at" refl,
            (
              when-IsReason _ "null_required:external_id" refl,
              (
                when-IsReason _ "null_required:name" refl,
                (
                  when-IsReason _ "null_required:url" refl,
                  (
                    when-IsReason _ "null_required:currency" refl,
                    (
                      when-IsReason _ "null_required:availability" refl,
                      (
                        when-IsReason _ "null_required:category" refl,
                        (
                          when-IsReason _ "null_required:collected_at" refl,
                          (
                            when-IsReason _ "negative_price" refl,
                            (
                              when-IsReason _
                                  "invalid_availability:allowed={in_stock,out_of_stock,preorder,unknown}"
                                  refl,
                              (
                                when-IsReason _ "unsupported_schema_version:allowed={1}" refl,
                                (when-IsReason _ "invalid_currency_format" refl, tt),
                              ),
                            ),
                          ),
                        ),
                      ),
                    ),
                  ),
                ),
              ),
            ),
          ),
        ),
      ),
    ),
  )

  has_errors-exists : (r : Row P) → has_errors P r ≡ exists is_some (error_expressions P r)
  has_errors-exists r =
      unfold has_errors row_errors in
      has_chars-join-collect (error_expressions P r) (error_expressions-IsReason r)

  no_violation : (r : Row P) → exists is_some (error_expressions P r) ≡ false → MeetsRules r
  unfolding error_expressions
  no_violation r h = record {
    event_id = ground arith;
    event_type = ground arith;
    schema_version = ground arith;
    source = ground arith;
    produced_at = ground arith;
    external_id = ground arith;
    name = ground arith;
    url = ground arith;
    price = ground arith;
    currency = ground arith;
    availability = ground arith;
    category = ground arith;
    collected_at = ground arith;
  }

  meets_all : (r : Row P) → MeetsRules r → exists is_some (error_expressions P r) ≡ false
  unfolding error_expressions
  meets_all r m = ground arith

  -- A row is accepted exactly when it meets every rule.
  pub accepted_iff : (r : Row P) → (has_errors P r ≡ false) ↔ MeetsRules r
  accepted_iff r = (
    λ h. no_violation r (sym (has_errors-exists r) ∙ h),
    λ m. has_errors-exists r ∙ meets_all r m,
  )

  valid_rows : (df : List (Row P)) → All MeetsRules (select (λ r. not (has_errors P r)) df)
  valid_rows [] = tt
  valid_rows (r ∷ df) = elim (Bool-cases (has_errors P r)) [
    | inl e ↦ rw e (valid_rows df)
    | inr e ↦ rw e ((accepted_iff r).0 e, valid_rows df)
  ]

  -- a rejected row with its reasons
  abbrev pub IsRejected : Row P × String → Type 0
  IsRejected (r, errors) = (errors ≡ row_errors P r) × (¬ MeetsRules r)

  rejected_rows : (df : List (Row P)) → All IsRejected (rejected P df)
  unfolding rejected
  rejected_rows [] = tt
  rejected_rows (r ∷ df) = elim (Bool-cases (has_errors P r)) [
    | inl e ↦ rw e ((refl, λ m. ground (arith, (accepted_iff r).1 m)), rejected_rows df)
    | inr e ↦ rw e (rejected_rows df)
  ]

  split_length :
      (df : List (Row P))
      → length (select (λ r. not (has_errors P r)) df) + length (rejected P df) ≡ length df
  unfolding rejected
  split_length [] = refl
  split_length (r ∷ df) = ground (arith, split_length df)

  -- Every valid row meets the rules, every invalid row carries its reasons and does not meet them,
  -- and together they are as many as the rows of the frame.
  pub validate_partition :
      (df : List (Row P))
      → All MeetsRules (validate P df).valid
        × All IsRejected (validate P df).invalid
        × (length (validate P df).valid + length (validate P df).invalid ≡ length df)
  unfolding validate
  validate_partition df = (valid_rows df, rejected_rows df, split_length df)

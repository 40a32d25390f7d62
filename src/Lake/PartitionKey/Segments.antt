-- ===== src/Lake/PartitionKey/Segments.antt =====
-- What `sanitize_path_segment` makes of a text.
use Prim.Native.Char.{Char, code}
use text.Mathlib.TextEquality.{Char-path}
use agentic_data_engineering.Base.Texts.{append}
use agentic_data_engineering.Lake.PartitionKey.{
  between, is_safe, strip_null, replace_unsafe, is_dot, starts_dot, has_dots, replace_dots,
  neutralize, size, sanitize_path_segment,
}
use agentic_data_engineering.Base.{
  ℕ, zero, suc, ◌≤◌, ◌<◌, String, ◌≡◌, refl, sym, inl, inr, Bool, true, false, ◌&&◌, arith, ==_iff,
  if◌then◌else◌, Bool-cases,
}
use agentic_data_engineering.Base.Equality.{◌==◌, nat_eq, string_eq, option_eq, beq_cases}

-- Each run of dots becomes one dot.
unfoldable pub single_dots : String → String
unfolding starts_dot
single_dots String.[] = String.[]
single_dots (String.◌∷◌ c s) =
    let rest = single_dots s in if is_dot c && starts_dot s then rest else String.◌∷◌ c rest

unfoldable pub all_safe : String → Bool
unfolding is_safe
all_safe String.[] = true
all_safe (String.◌∷◌ c s) = is_safe c && all_safe s

starts_dot-replace_dots : (s : String) → starts_dot (replace_dots s) ≡ starts_dot s
unfolding starts_dot replace_dots
starts_dot-replace_dots String.[] = refl
starts_dot-replace_dots (String.◌∷◌ c String.[]) = refl
starts_dot-replace_dots (String.◌∷◌ c (String.◌∷◌ d s)) = ground arith

dots_equal : (c d : Char) → (is_dot c && is_dot d) ≡ true → c ≡ d
dots_equal c d h = Char-path c d (ground (arith, ==_iff (code c) b'.', ==_iff (code d) b'.'))

replace_dots-two :
    (c d : Char) (s : String)
    → (is_dot c && is_dot d) ≡ true
    → replace_dots (String.◌∷◌ c (String.◌∷◌ d s)) ≡ String.◌∷◌ c (replace_dots s)
unfolding replace_dots
replace_dots-two c d s h = ground arith

replace_dots-one :
    (c d : Char) (s : String)
    → (is_dot c && is_dot d) ≡ false
    → replace_dots (String.◌∷◌ c (String.◌∷◌ d s)) ≡ String.◌∷◌ c (replace_dots (String.◌∷◌ d s))
unfolding replace_dots
replace_dots-one c d s h = ground arith

single_dots-replace_dots : (s : String) → single_dots (replace_dots s) ≡ single_dots s
unfolding single_dots starts_dot
single_dots-replace_dots String.[] = unfold replace_dots in refl
single_dots-replace_dots (String.◌∷◌ c String.[]) = unfold replace_dots in refl
single_dots-replace_dots (String.◌∷◌ c (String.◌∷◌ d s)) =
    elim (Bool-cases (is_dot c && is_dot d)) [
      | inl e ↦
          rw (replace_dots-two c d s e, dots_equal c d e)
            (ground (arith, starts_dot-replace_dots s, single_dots-replace_dots s))
      | inr e ↦ rw (replace_dots-one c d s e) (
          ground (
            arith,
            starts_dot-replace_dots (String.◌∷◌ d s),
            single_dots-replace_dots (String.◌∷◌ d s),
          ))
    ]

single_dots_same : (s : String) → has_dots s ≡ false → single_dots s ≡ s
unfolding single_dots has_dots
single_dots_same String.[] h = refl
single_dots_same (String.◌∷◌ c s) h = ground (arith, single_dots_same s)

replace_dots_le : (s : String) → size (replace_dots s) ≤ size s
unfolding size
replace_dots_le String.[] = unfold replace_dots in omega arith
replace_dots_le (String.◌∷◌ c String.[]) = unfold replace_dots in omega arith
replace_dots_le (String.◌∷◌ c (String.◌∷◌ d s)) = elim (Bool-cases (is_dot c && is_dot d)) [
  | inl e ↦ rw (replace_dots-two c d s e) (omega (arith, replace_dots_le s))
  | inr e ↦ rw (replace_dots-one c d s e) (omega (arith, replace_dots_le (String.◌∷◌ d s)))
]

replace_dots_lt : (s : String) → has_dots s ≡ true → size (replace_dots s) < size s
unfolding size has_dots starts_dot
replace_dots_lt String.[] h = absurd (ground arith)
replace_dots_lt (String.◌∷◌ c String.[]) h = absurd (ground arith)
replace_dots_lt (String.◌∷◌ c (String.◌∷◌ d s)) h = elim (Bool-cases (is_dot c && is_dot d)) [
  | inl e ↦ rw (replace_dots-two c d s e) (omega (arith, replace_dots_le s))
  | inr e ↦
      rw (replace_dots-one c d s e) (omega (arith, replace_dots_lt (String.◌∷◌ d s) (ground arith)))
]

empty_undotted : (s : String) → size s ≤ 0 → has_dots s ≡ false
unfolding size has_dots
empty_undotted String.[] h = refl
empty_undotted (String.◌∷◌ c s) h = absurd (omega arith)

-- From the length of a text on, the number of rounds does not matter: the loop has ended, and each
-- run of dots has become one dot.
pub neutralize-terminates : (n : ℕ) (s : String) → size s ≤ n → neutralize n s ≡ single_dots s
unfolding neutralize
neutralize-terminates zero s h = sym (single_dots_same s (empty_undotted s h))
neutralize-terminates (suc n) s h = elim (Bool-cases (has_dots s)) [
  | inl e ↦ ground (
    arith,
    neutralize-terminates n (replace_dots s) (omega (arith, replace_dots_lt s e)),
    single_dots-replace_dots s,
  )
  | inr e ↦ ground (arith, single_dots_same s e)
]

-- A text is sanitized by dropping its null characters, replacing each unsafe character, and making
-- each run of dots one dot.
pub sanitize_path_segment_lem :
    (segment : String)
    → sanitize_path_segment segment ≡ single_dots (replace_unsafe (strip_null segment))
unfolding sanitize_path_segment
sanitize_path_segment_lem segment = neutralize-terminates _ _ (omega arith)

starts_dot-single_dots : (s : String) → starts_dot (single_dots s) ≡ starts_dot s
unfolding single_dots starts_dot
starts_dot-single_dots String.[] = refl
starts_dot-single_dots (String.◌∷◌ c s) = ground (arith, starts_dot-single_dots s)

has_dots-single_dots : (s : String) → has_dots (single_dots s) ≡ false
unfolding single_dots has_dots starts_dot
has_dots-single_dots String.[] = refl
has_dots-single_dots (String.◌∷◌ c s) =
    ground (arith, has_dots-single_dots s, starts_dot-single_dots s)

all_safe-single_dots : (s : String) → all_safe s ≡ true → all_safe (single_dots s) ≡ true
unfolding single_dots all_safe
all_safe-single_dots String.[] h = refl
all_safe-single_dots (String.◌∷◌ c s) h = ground (arith, all_safe-single_dots s)

all_safe-append :
    (s t : String) → all_safe s ≡ true → all_safe t ≡ true → all_safe (append s t) ≡ true
unfolding all_safe append
all_safe-append String.[] t h k = k
all_safe-append (String.◌∷◌ c s) t h k = ground (arith, all_safe-append s t)

all_safe-replace_unsafe : (s : String) → all_safe (replace_unsafe s) ≡ true
unfolding all_safe replace_unsafe
all_safe-replace_unsafe String.[] = refl
all_safe-replace_unsafe (String.◌∷◌ c s) = ground (
  arith,
  all_safe-replace_unsafe s,
  all_safe-append "_" (replace_unsafe s) refl (all_safe-replace_unsafe s),
)

safe_not_null : (c : Char) → is_safe c ≡ true → (code c == 0) ≡ false
unfolding is_safe between
safe_not_null c h = elim (beq_cases (code c) 0) [ inl e ↦ absurd (ground arith) | inr e ↦ e ]

strip_null_safe : (s : String) → all_safe s ≡ true → strip_null s ≡ s
unfolding strip_null all_safe
strip_null_safe String.[] h = refl
strip_null_safe (String.◌∷◌ c s) h = ground (arith, strip_null_safe s, safe_not_null c)

replace_unsafe_safe : (s : String) → all_safe s ≡ true → replace_unsafe s ≡ s
unfolding replace_unsafe all_safe
replace_unsafe_safe String.[] h = refl
replace_unsafe_safe (String.◌∷◌ c s) h = ground (arith, replace_unsafe_safe s)

-- A text of safe characters without two dots in a row stays as it is.
pub sanitize_path_segment_same :
    (segment : String)
    → all_safe segment ≡ true
    → has_dots segment ≡ false
    → sanitize_path_segment segment ≡ segment
sanitize_path_segment_same segment h k =
    rw (sanitize_path_segment_lem segment, strip_null_safe segment h, replace_unsafe_safe segment h)
      (single_dots_same segment k)

-- Whatever the text, the sanitized text has safe characters only and no two dots in a row, and
-- sanitizing it again changes nothing.
pub sanitize_path_segment_clean :
    (segment : String)
    → (all_safe (sanitize_path_segment segment) ≡ true)
      × (has_dots (sanitize_path_segment segment) ≡ false)
      × (sanitize_path_segment (sanitize_path_segment segment) ≡ sanitize_path_segment segment)
sanitize_path_segment_clean segment =
    let a = all_safe-single_dots _ (all_safe-replace_unsafe (strip_null segment)) in
    let b = has_dots-single_dots (replace_unsafe (strip_null segment)) in
    rw (sanitize_path_segment_lem segment)
      (a, b, sanitize_path_segment_same (single_dots (replace_unsafe (strip_null segment))) a b)

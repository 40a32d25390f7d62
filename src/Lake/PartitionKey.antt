-- ===== src/Lake/PartitionKey.antt =====
-- libs/partitioning/partition_key.py: the key of an event's file in the lake.
pub mod Segments
pub mod Injective
use Prim.Native.Char.{Char, code}
use agentic_data_engineering.Base.Texts.{append}
use agentic_data_engineering.Base.{
  ℕ, zero, suc, ◌+◌, ◌-◌, ◌*◌, ◌≤◌, ◌<◌, min, String, ◌≡◌, refl, sym, ap, ◌∙◌, ◌≢◌, ◌↔◌, ◌⊎◌, inl,
  inr, Bool, true, false, not, ◌&&◌, ◌||◌, Option, none, some, List, [], ◌∷◌, ◌++◌, map, append-nil,
  append_assoc, arith, ltb, leb, ==_iff, if◌then◌else◌, Bool-cases, Option-cases, is_some, length,
  drop, take, select, exists, count_if, length-append, length-drop, length-select, All, All-append,
  All_map_of,
}
use agentic_data_engineering.Base.Equality.{
  Eq, ◌==◌, nat_eq, string_eq, option_eq, beq_refl, beq-eq, beq_false, beq_sym, beq_cases,
}
use agentic_data_engineering.Base.Dict.{Dict, get, put, remove, get-put, get-remove, dict_laws}
use agentic_data_engineering.Base.Exec.{
  Result, ok, err, Exec, pure, raise, gets, lift, modify, continue, ◌>>=◌, ◌>>◌,
}

-- `LakeLayer`
pub data LakeLayer : Type 0 where
  bronze silver : LakeLayer

unfoldable pub layer_value : LakeLayer → String
layer_value bronze = "bronze"
layer_value silver = "silver"

unfoldable pub between : ℕ → ℕ → ℕ → Bool
between a b n = leb a n && leb n b

-- `[a-zA-Z0-9\-_.]`
unfoldable pub is_safe : Char → Bool
unfolding between
is_safe c =
    between b'a' b'z' (code c)
    || between b'A' b'Z' (code c)
    || between b'0' b'9' (code c)
    || code c == b'-'
    || code c == b'_'
    || code c == b'.'

-- `segment.replace("\x00", "")`
unfoldable pub strip_null : String → String
strip_null String.[] = String.[]
strip_null (String.◌∷◌ c s) =
    let rest = strip_null s in if code c == 0 then rest else String.◌∷◌ c rest

-- `_SAFE_SEGMENT_RE.sub("_", segment)`
unfoldable pub replace_unsafe : String → String
unfolding append is_safe
replace_unsafe String.[] = String.[]
replace_unsafe (String.◌∷◌ c s) =
    let rest = replace_unsafe s in if is_safe c then String.◌∷◌ c rest else append "_" rest

abbrev pub is_dot : Char → Bool
is_dot c = code c == b'.'

unfoldable pub starts_dot : String → Bool
starts_dot String.[] = false
starts_dot (String.◌∷◌ c s) = is_dot c

-- `".." in segment`
unfoldable pub has_dots : String → Bool
unfolding starts_dot
has_dots String.[] = false
has_dots (String.◌∷◌ c s) = (is_dot c && starts_dot s) || has_dots s

-- `segment.replace("..", ".")`: from the left, without looking again at what it replaced
unfoldable pub replace_dots : String → String
replace_dots String.[] = String.[]
replace_dots (String.◌∷◌ c String.[]) = String.◌∷◌ c String.[]
replace_dots (String.◌∷◌ c (String.◌∷◌ d s)) = elim (is_dot c && is_dot d) [
  | true ↦ String.◌∷◌ c (replace_dots s)
  | false ↦ String.◌∷◌ c (replace_dots (String.◌∷◌ d s))
]

-- the `while` loop, for at most so many rounds
unfoldable pub neutralize : ℕ → String → String
unfolding has_dots replace_dots
neutralize zero s = s
neutralize (suc n) s = elim (has_dots s) [ true ↦ neutralize n (replace_dots s) | false ↦ s ]

unfoldable pub size : String → ℕ
size String.[] = 0
size (String.◌∷◌ c s) = suc (size s)

-- `sanitize_path_segment` with its default replacement, the only one that the program passes; `re.sub`
-- would read another one as a template. A round shortens the text, so that its length bounds the rounds
unfoldable pub sanitize_path_segment : String → String
unfolding strip_null replace_unsafe neutralize size
sanitize_path_segment segment = let s = replace_unsafe (strip_null segment) in neutralize (size s) s

-- What the key takes from an event: `collected_at` by `strftime`, which the library formats.
pub record Keyed : Type 0 where
  pub source : String
  pub event_id : String
  pub year : String
  pub month : String
  pub day : String

unfoldable pub build_partition_key : Keyed → LakeLayer → String
unfolding append layer_value sanitize_path_segment
build_partition_key event layer = append (layer_value layer) (
    append "/source=" (
      append (sanitize_path_segment event.source) (
        append "/year=" (
          append event.year (
            append "/month=" (
              append event.month (
                append "/day=" (
                  append event.day
                    (append "/" (append (sanitize_path_segment event.event_id) ".parquet"))))))))))

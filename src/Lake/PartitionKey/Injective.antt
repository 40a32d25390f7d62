-- ===== src/Lake/PartitionKey/Injective.antt =====
-- Which events share a file of the lake.
use Prim.Native.Char.{Char, code}
use agentic_data_engineering.Base.Texts.{append}
use agentic_data_engineering.Lake.PartitionKey.{
  LakeLayer, bronze, silver, layer_value, between, is_safe, size, sanitize_path_segment, Keyed,
  build_partition_key,
}
use agentic_data_engineering.Lake.PartitionKey.Segments.{all_safe, sanitize_path_segment_clean}
use agentic_data_engineering.Base.{
  suc, ◌+◌, String, ◌≡◌, refl, sym, ap, inl, inr, Bool, true, not, ◌&&◌, Option, none, some, arith,
}
use agentic_data_engineering.Base.Equality.{◌==◌, nat_eq, string_eq, option_eq, beq_cases}

abbrev is_slash : Char → Bool
is_slash c = code c == b'/'

-- No character of the text is a slash.
unfoldable pub no_slash : String → Bool
no_slash String.[] = true
no_slash (String.◌∷◌ c s) = not (is_slash c) && no_slash s

safe_no_slash : (s : String) → all_safe s ≡ true → no_slash s ≡ true
unfolding all_safe no_slash is_safe between
safe_no_slash String.[] h = refl
safe_no_slash (String.◌∷◌ c s) h = elim (beq_cases (code c) b'/') [
  | inl e ↦ absurd (ground arith)
  | inr e ↦ ground (arith, safe_no_slash s)
]

head_of : String → Option Char
head_of String.[] = none
head_of (String.◌∷◌ c s) = some c

tail_of : String → String
tail_of String.[] = String.[]
tail_of (String.◌∷◌ c s) = s

cons_injective : (c d : Char) (s t : String) → String.◌∷◌ c s ≡ String.◌∷◌ d t → (c ≡ d) × (s ≡ t)
unfolding head_of tail_of
cons_injective c d s t h = let p : some c ≡ some d = ap head_of h in (cc, ap tail_of h)

-- Two texts without slashes that go on with a slash are the same if the wholes are.
segment_injective :
    (a b s t : String)
    → no_slash a ≡ true
    → no_slash b ≡ true
    → append a (append "/" s) ≡ append b (append "/" t)
    → (a ≡ b) × (s ≡ t)
unfolding no_slash append
segment_injective String.[] String.[] s t h k e = (refl, (cons_injective _ _ s t e).1)
segment_injective String.[] (String.◌∷◌ d b) s t h k e =
    absurd
      (let p : is_slash d ≡ true = ap is_slash (sym (cons_injective _ _ _ _ e).0) in ground arith)
segment_injective (String.◌∷◌ c a) String.[] s t h k e =
    absurd (let p : is_slash c ≡ true = ap is_slash (cons_injective _ _ _ _ e).0 in ground arith)
segment_injective (String.◌∷◌ c a) (String.◌∷◌ d b) s t h k e =
    let p : c ≡ d = (cons_injective _ _ _ _ e).0 in
    let rest : (a ≡ b) × (s ≡ t) =
      segment_injective a b s t (ground arith) (ground arith) (cons_injective _ _ _ _ e).1 in
    (cc, rest.1)

append_cancel : (a s t : String) → append a s ≡ append a t → s ≡ t
unfolding append
append_cancel String.[] s t e = e
append_cancel (String.◌∷◌ c a) s t e = append_cancel a s t (cons_injective _ _ _ _ e).1

size-append : (a s : String) → size (append a s) ≡ size a + size s
unfolding append size
size-append String.[] s = omega arith
size-append (String.◌∷◌ c a) s = omega (arith, size-append a s)

append_cancel_right : (a b s : String) → append a s ≡ append b s → a ≡ b
unfolding append
append_cancel_right String.[] String.[] s e = refl
append_cancel_right String.[] (String.◌∷◌ d b) s e = absurd (
    let p : size s ≡ suc (size (append b s)) = (unfold size in ap size e) in
    omega (arith, size-append b s))
append_cancel_right (String.◌∷◌ c a) String.[] s e = absurd (
    let p : suc (size (append a s)) ≡ size s = (unfold size in ap size e) in
    omega (arith, size-append a s))
append_cancel_right (String.◌∷◌ c a) (String.◌∷◌ d b) s e =
    let p : c ≡ d = (cons_injective _ _ _ _ e).0 in
    let q : a ≡ b = append_cancel_right a b s (cons_injective _ _ _ _ e).1 in cc

sanitized_no_slash : (s : String) → no_slash (sanitize_path_segment s) ≡ true
unfolding all_safe is_safe
sanitized_no_slash s = safe_no_slash _ (sanitize_path_segment_clean s).0

layer_no_slash : (l : LakeLayer) → no_slash (layer_value l) ≡ true
unfolding layer_value no_slash
layer_no_slash bronze = refl
layer_no_slash silver = refl

layer_value_injective : (l m : LakeLayer) → layer_value l ≡ layer_value m → l ≡ m
unfolding layer_value
layer_value_injective bronze bronze e = refl
layer_value_injective silver silver e = refl
layer_value_injective bronze silver e =
    absurd (ground (arith, ap code (cons_injective _ _ _ _ e).0))
layer_value_injective silver bronze e =
    absurd (ground (arith, ap code (cons_injective _ _ _ _ e).0))

-- The date that `strftime` writes has no slash.
abbrev pub IsDated : Keyed → Type 0
IsDated event =
    (no_slash event.year ≡ true) × (no_slash event.month ≡ true) × (no_slash event.day ≡ true)

-- Two events whose dates have no slash share a key only in one layer, on one day, and with the same
-- sanitized source and the same sanitized event id.
pub build_partition_key_injective :
    (e f : Keyed) (l m : LakeLayer)
    → IsDated e
    → IsDated f
    → build_partition_key e l ≡ build_partition_key f m
    → (l ≡ m)
      × (sanitize_path_segment e.source ≡ sanitize_path_segment f.source)
      × (e.year ≡ f.year)
      × (e.month ≡ f.month)
      × (e.day ≡ f.day)
      × (sanitize_path_segment e.event_id ≡ sanitize_path_segment f.event_id)
unfolding build_partition_key
build_partition_key_injective e f l m de df h =
    let p0 =
      segment_injective (layer_value l) (layer_value m) _ _ (layer_no_slash l) (layer_no_slash m)
        h in
    let p1 =
      segment_injective (sanitize_path_segment e.source) (sanitize_path_segment f.source) _ _
        (sanitized_no_slash e.source) (sanitized_no_slash f.source)
        (append_cancel "source=" _ _ p0.1) in
    let p2 = segment_injective e.year f.year _ _ de.0 df.0 (append_cancel "year=" _ _ p1.1) in
    let p3 = segment_injective e.month f.month _ _ de.1 df.1 (append_cancel "month=" _ _ p2.1) in
    let p4 = segment_injective e.day f.day _ _ de.2 df.2 (append_cancel "day=" _ _ p3.1) in
    (
      layer_value_injective l m p0.0,
      p1.0,
      p2.0,
      p3.0,
      p4.0,
      append_cancel_right _ _ ".parquet" p4.1,
    )

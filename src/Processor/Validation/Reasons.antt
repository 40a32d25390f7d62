-- ===== src/Processor/Validation/Reasons.antt =====
-- The text of the joined reasons is empty just where no rule is violated.
use agentic_data_engineering.Base.Texts.{append}
use agentic_data_engineering.Processor.Validation.{collect, join, has_chars}
use agentic_data_engineering.Base.{
  String, ◌≡◌, refl, true, Option, none, some, List, [], ◌∷◌, is_some, exists, All,
}
use agentic_data_engineering.Base.Equality.{nat_eq, string_eq, option_eq}

-- A reason, where there is one, is a text with characters.
abbrev pub IsReason : Option String → Type 0
IsReason none = Unit
IsReason (some t) = has_chars t ≡ true

has_chars-append : (s t : String) → has_chars s ≡ true → has_chars (append s t) ≡ true
unfolding has_chars append
has_chars-append String.[] t h = cc
has_chars-append (String.◌∷◌ c s) t h = refl

has_chars-join :
    (t : String) (ts : List String) → has_chars t ≡ true → has_chars (join (t ∷ ts)) ≡ true
unfolding join
has_chars-join t [] h = h
has_chars-join t (u ∷ ts) h = has_chars-append t _ h

pub has_chars-join-collect :
    (es : List (Option String))
    → All IsReason es
    → has_chars (join (collect es)) ≡ exists is_some es
unfolding collect
has_chars-join-collect [] h = unfold join has_chars in refl
has_chars-join-collect (none ∷ es) h = has_chars-join-collect es h.1
has_chars-join-collect (some t ∷ es) h = has_chars-join t (collect es) h.0

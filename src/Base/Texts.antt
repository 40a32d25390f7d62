-- ===== src/Base/Texts.antt =====
-- Texts by their characters.
use text.Mathlib.Text.{◌==◌ as str_eq}
use Prim.Native.Char.{code}
use Prim.Native.String.{String}
use mathlib.Core.Bool.{Bool, true, false, ◌&&◌, ◌||◌}
use mathlib.Core.Option.{Option, none, some}
use agentic_data_engineering.Base.Tests.{◌==◌, if◌then◌else◌}

-- A text followed by another.
unfoldable pub append : String → String → String
append String.[] t = t
append (String.◌∷◌ c s) t = String.◌∷◌ c (append s t)

-- `text.startswith(prefix)`
unfoldable pub starts_with : String → String → Bool
starts_with String.[] t = true
starts_with (String.◌∷◌ c s) String.[] = false
starts_with (String.◌∷◌ c s) (String.◌∷◌ d t) = code c == code d && starts_with s t

-- `text.endswith(suffix)`
unfoldable pub ends_with : String → String → Bool
ends_with s String.[] = str_eq s String.[]
ends_with s (String.◌∷◌ d t) = str_eq s (String.◌∷◌ d t) || ends_with s t

-- `text.rsplit("/", 1)`, when it has two parts
unfoldable pub rsplit_slash : String → Option (String × String)
rsplit_slash String.[] = none
rsplit_slash (String.◌∷◌ c s) = elim (rsplit_slash s) [
  | none ↦ (if code c == b'/' then some ("", s) else none)
  | some (a, b) ↦ some (String.◌∷◌ c a, b)
]

-- `part in text`
unfoldable pub contains : String → String → Bool
unfolding starts_with
contains part String.[] = starts_with part String.[]
contains part (String.◌∷◌ c s) = starts_with part (String.◌∷◌ c s) || contains part s

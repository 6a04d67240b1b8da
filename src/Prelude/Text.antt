-- ===== src/Prelude/Text.antt =====
-- What the sources use of Python's `str`: `strip`, `lower`, `startswith` and truth. A text that is
-- compared is a native `String`; one that is walked is the list of its code points.
use Prim.Native.Char.{code}
use Prim.Native.Nat.{ℕ, ◌+◌}
use Prim.Native.String.{String}
use mathlib.Core.Bool.{Bool, true, false, ◌&&◌, ◌||◌}
use mathlib.Core.List.{List, [], ◌∷◌}
use mathlib.Core.Option.{Option, none, some}
use mathlib.Core.Path.{◌≡◌, refl}
use mathlib.Core.Logic.{inl, inr}
use cloudlink.Prelude.Tests.{if◌then◌else◌, ◌==◌, nat_eq, leb, Bool-cases}

abbrev pub codes : String → List ℕ
codes String.[] = []
codes (String.◌∷◌ c s) = code c ∷ codes s

-- The code points of which `str.isspace` is true.
is_space : ℕ → Bool
is_space c =
    (leb 9 c && leb c 13)
    || (leb 28 c && leb c 32)
    || c == 0x85
    || c == 0xa0
    || c == 0x1680
    || (leb 0x2000 c && leb c 0x200a)
    || c == 0x2028
    || c == 0x2029
    || c == 0x202f
    || c == 0x205f
    || c == 0x3000

lstrip : String → String
unfolding is_space
lstrip String.[] = String.[]
lstrip (String.◌∷◌ c s) = let rest = lstrip s in if is_space (code c) then rest else String.◌∷◌ c s

abbrev drop_blank : Bool → String → String → String
drop_blank true String.[] whole = String.[]
drop_blank true (String.◌∷◌ c s) whole = whole
drop_blank false rest whole = whole

unfoldable pub rstrip : String → String
unfolding is_space
rstrip String.[] = String.[]
rstrip (String.◌∷◌ c s) = drop_blank (is_space (code c)) (rstrip s) (String.◌∷◌ c (rstrip s))

-- `text.strip()`.
unfoldable pub strip : String → String
unfolding lstrip rstrip
strip s = rstrip (lstrip s)

-- The truth of a text, and `text or default`.
abbrev pub non_empty : String → Bool
non_empty String.[] = false
non_empty (String.◌∷◌ c s) = true

abbrev pub text_or : String → String → String
text_or String.[] d = d
text_or (String.◌∷◌ c s) d = String.◌∷◌ c s

-- `text or None`.
abbrev pub or_none : String → Option String
or_none String.[] = none
or_none (String.◌∷◌ c s) = some (String.◌∷◌ c s)

-- `str(value or "")`.
abbrev pub text_of : Option String → String
text_of none = ""
text_of (some s) = s

-- `text.lower()` of an ASCII text, as code points.
lower_code : ℕ → ℕ
lower_code c = if leb b'A' c && leb c b'Z' then c + 32 else c

unfoldable pub lower_codes : List ℕ → List ℕ
unfolding lower_code
lower_codes [] = []
lower_codes (c ∷ s) = lower_code c ∷ lower_codes s

unfoldable pub lower : String → List ℕ
unfolding lower_codes
lower s = lower_codes (codes s)

abbrev pub same_codes : List ℕ → List ℕ → Bool
same_codes [] [] = true
same_codes [] (b ∷ t) = false
same_codes (a ∷ s) [] = false
same_codes (a ∷ s) (b ∷ t) = a == b && same_codes s t

abbrev pub starts_with : List ℕ → List ℕ → Bool
starts_with s [] = true
starts_with [] (b ∷ t) = false
starts_with (a ∷ s) (b ∷ t) = a == b && starts_with s t

lstrip-rstrip-lstrip : (s : String) → lstrip (rstrip (lstrip s)) ≡ rstrip (lstrip s)
unfolding lstrip rstrip
lstrip-rstrip-lstrip String.[] = refl
lstrip-rstrip-lstrip (String.◌∷◌ c s) = elim (Bool-cases (is_space (code c))) [
  | inl blank ↦ rw blank (lstrip-rstrip-lstrip s)
  | inr solid ↦ rw (solid, solid, solid) refl
]

rstrip_twice : (s : String) → rstrip (rstrip s) ≡ rstrip s
unfolding rstrip
rstrip_twice String.[] = refl
rstrip_twice (String.◌∷◌ c s) = again (is_space (code c)) refl (rstrip s) (rstrip_twice s)
  where
    again :
        (b : Bool)
        → is_space (code c) ≡ b
        → (rest : String) → rstrip rest ≡ rest
        → rstrip (drop_blank b rest (String.◌∷◌ c rest)) ≡ drop_blank b rest (String.◌∷◌ c rest)
    again true e String.[] k = refl
    again true e (String.◌∷◌ d rest) k = rw (e, k) refl
    again false e rest k = rw (e, k) refl

-- A stripped text has no blanks at its ends any more.
pub strip_twice : (s : String) → strip (strip s) ≡ strip s
unfolding strip
strip_twice s = rw (lstrip-rstrip-lstrip s) (rstrip_twice (lstrip s))

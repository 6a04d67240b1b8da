-- ===== src/Prelude/Paths.antt =====
-- What the sources use of Python's `pathlib`: the parts of a path, its name, and joining. A path that
-- the server builds is a text with `/` between its parts.
use Prim.Native.Char.{code}
use Prim.Native.Nat.{ℕ}
use Prim.Native.String.{String}
use mathlib.Core.Bool.{Bool, true, false, ◌&&◌, ◌||◌, not}
use mathlib.Core.List.{List, [], ◌∷◌}
use cloudlink.Prelude.Tests.{if◌then◌else◌, ◌==◌, nat_eq, string_eq, Bool-cases}
use mathlib.Core.Path.{◌≡◌, refl}
use mathlib.Core.Logic.{inl, inr}
use cloudlink.Prelude.Lists.{select, All}
use cloudlink.Prelude.Text.{non_empty}

-- `a + b` of texts.
infixr 60 ◌+++◌
abbrev pub ◌+++◌ : String → String → String
String.[] +++ t = t
(String.◌∷◌ c s) +++ t = String.◌∷◌ c (s +++ t)

-- `text.split(separator)`, as the first word and those after it.
abbrev pub split_words : ℕ → String → String × List String
split_words sep String.[] = (String.[], [])
split_words sep (String.◌∷◌ c s) =
    let rest = split_words sep s in
    if code c == sep then (String.[], rest.0 ∷ rest.1) else (String.◌∷◌ c rest.0, rest.1)

abbrev pub words : ℕ → String → List String
words sep s = let w = split_words sep s in w.0 ∷ w.1

abbrev pub is_absolute : String → Bool
is_absolute String.[] = false
is_absolute (String.◌∷◌ c s) = code c == b'/'

-- `Path(text).parts`, without the root: no empty part and no `.`.
unfoldable pub path_parts : String → List String
path_parts s = select (λ w. non_empty w && not (w == ".")) (words b'/' s)

-- `Path(text).name`
abbrev pub last_part : List String → String
last_part [] = ""
last_part (w ∷ []) = w
last_part (w ∷ v ∷ ws) = last_part (v ∷ ws)

-- `str(Path(...))` of a relative path.
abbrev pub join_parts : List String → String
join_parts [] = "."
join_parts (w ∷ []) = w
join_parts (w ∷ v ∷ ws) = w +++ ("/" +++ join_parts (v ∷ ws))

abbrev pub has_backslash : String → Bool
has_backslash String.[] = false
has_backslash (String.◌∷◌ c s) = code c == 0x5c || has_backslash s

-- A text without a separator.
abbrev pub lacks : ℕ → String → Bool
lacks sep String.[] = true
lacks sep (String.◌∷◌ c s) = not (code c == sep) && lacks sep s

-- Parts of a split text hold no separator.
pub words-lacks : (sep : ℕ) (s : String) → All (λ w. lacks sep w ≡ true) (words sep s)
words-lacks sep String.[] = (refl, tt)
words-lacks sep (String.◌∷◌ c s) =
    let rest = words-lacks sep s in
    elim (Bool-cases (code c == sep)) [
      | inl own ↦ rw own (refl, rest)
      | inr foreign ↦ rw foreign (rw foreign rest.0, rest.1)
    ]

-- ===== src/Version.antt =====
-- app/version.py: reading a version and comparing two. Digits are the ASCII digits.
pub mod Order
use cloudlink.Prelude.{
  ℕ, zero, suc, ◌+◌, ◌-◌, ◌*◌, max, Bool, true, false, ◌&&◌, ◌||◌, not, String, List, [], ◌∷◌, ◌++◌,
  map, Option, none, some, ◌≡◌, refl, ltb, leb, if◌then◌else◌, ◌==◌, nat_eq, string_eq, length,
  codes, strip, non_empty,
}

is_digit : ℕ → Bool
is_digit c = leb b'0' c && leb c b'9'

-- `[._-]`
is_separator : ℕ → Bool
is_separator c = c == b'.' || c == b'_' || c == b'-'

abbrev next_digit : Option ℕ → ℕ → ℕ
next_digit none c = c - b'0'
next_digit (some n) c = 10 * n + (c - b'0')

abbrev cons_part : Option ℕ → Option (List ℕ) → Option (List ℕ)
cons_part (some n) (some ns) = some (n ∷ ns)
cons_part (some n) none = none
cons_part none ns = none

-- The parts of a text that the pattern `\d+(?:[._-]\d+)*` matches, after the digits `cur`.
parts_from : Option ℕ → List ℕ → Option (List ℕ)
unfolding is_digit is_separator
parts_from none [] = none
parts_from (some n) [] = some (n ∷ [])
parts_from cur (c ∷ s) =
    let longer = parts_from (some (next_digit cur c)) s in
    let next = cons_part cur (parts_from none s) in
    if is_digit c then longer else if is_separator c then next else none

unfoldable pub numeric_version_parts : String → Option (List ℕ)
unfolding parts_from strip
numeric_version_parts value = parts_from none (codes (strip value))

-- `parts + (0,) * (width - len(parts))`
abbrev zeros : ℕ → List ℕ
zeros zero = []
zeros (suc n) = 0 ∷ zeros n

abbrev pad : ℕ → List ℕ → List ℕ
pad width parts = parts ++ zeros (width - length parts)

-- `>=` of tuples.
tuple_ge : List ℕ → List ℕ → Bool
tuple_ge xs [] = true
tuple_ge [] (y ∷ ys) = false
tuple_ge (x ∷ xs) (y ∷ ys) = if x == y then tuple_ge xs ys else ltb y x

padded_ge : List ℕ → List ℕ → Bool
unfolding tuple_ge
padded_ge xs ys =
    tuple_ge (pad (max (length xs) (length ys)) xs) (pad (max (length xs) (length ys)) ys)

abbrev compare_parts : Option (List ℕ) → Option (List ℕ) → Bool → Bool
compare_parts none minimum same = same
compare_parts (some xs) none same = same
compare_parts (some xs) (some ys) same = padded_ge xs ys

unfoldable pub version_at_least : String → String → Bool
unfolding padded_ge numeric_version_parts
version_at_least candidate minimum =
    if not (non_empty (strip candidate)) || not (non_empty (strip minimum))
    then false
    else compare_parts (numeric_version_parts (strip candidate))
        (numeric_version_parts (strip minimum)) (strip candidate == strip minimum)

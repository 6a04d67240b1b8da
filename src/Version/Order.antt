-- ===== src/Version/Order.antt =====
-- `version_at_least` compares the first parts in which two versions differ.
use cloudlink.Prelude.{
  ℕ, zero, suc, ◌+◌, ◌-◌, ◌≤◌, ◌<◌, max, Bool, true, ◌&&◌, String, List, [], ◌∷◌, ◌++◌, some, ◌≡◌,
  refl, arith, ltb, if◌then◌else◌, ◌==◌, nat_eq, length, strip, non_empty, ◌↔◌, ◌⊎◌, inl, inr, ◌∙◌,
  ap, Bool-cases,
}
use cloudlink.Version.{numeric_version_parts, zeros, tuple_ge, padded_ge, version_at_least}

-- The comparison with no padding: a part that is missing counts as zero.
ge_parts : List ℕ → List ℕ → Bool
ge_parts xs [] = true
ge_parts [] (y ∷ ys) = y == 0 && ge_parts [] ys
ge_parts (x ∷ xs) (y ∷ ys) = if x == y then ge_parts xs ys else ltb y x

tuple_ge-ge_parts :
    (k m : ℕ) (xs ys : List ℕ)
    → length xs + k ≡ length ys + m
    → tuple_ge (xs ++ zeros k) (ys ++ zeros m) ≡ ge_parts xs ys
unfolding tuple_ge ge_parts
tuple_ge-ge_parts zero zero [] [] e = refl
tuple_ge-ge_parts (suc k) zero [] [] e = absurd (omega arith)
tuple_ge-ge_parts zero (suc m) [] [] e = absurd (omega arith)
tuple_ge-ge_parts (suc k) (suc m) [] [] e = tuple_ge-ge_parts k m [] [] (omega arith)
tuple_ge-ge_parts zero m [] (y ∷ ys) e = absurd (omega arith)
tuple_ge-ge_parts (suc k) m [] (y ∷ ys) e = ground (arith, tuple_ge-ge_parts k m [] ys)
tuple_ge-ge_parts k zero (x ∷ xs) [] e = absurd (omega arith)
tuple_ge-ge_parts k (suc m) (x ∷ xs) [] e = ground (arith, tuple_ge-ge_parts k m xs [])
tuple_ge-ge_parts k m (x ∷ xs) (y ∷ ys) e = ground (arith, tuple_ge-ge_parts k m xs ys)

padded_ge-eq-ge_parts : (xs ys : List ℕ) → padded_ge xs ys ≡ ge_parts xs ys
padded_ge-eq-ge_parts xs ys =
    unfold padded_ge in
    tuple_ge-ge_parts (max (length xs) (length ys) - length xs)
      (max (length xs) (length ys) - length ys) xs ys (omega arith)

first : List ℕ → ℕ
first [] = 0
first (x ∷ xs) = x

rest : List ℕ → List ℕ
rest [] = []
rest (x ∷ xs) = xs

-- The part of a version at a place, and the parts before it; a part that is missing is zero.
pub part : ℕ → List ℕ → ℕ
unfolding first rest
part zero xs = first xs
part (suc i) xs = part i (rest xs)

pub leading : ℕ → List ℕ → List ℕ
unfolding first rest
leading zero xs = []
leading (suc i) xs = first xs ∷ leading i (rest xs)

-- The versions have the same parts, or the first parts in which they differ say which is newer.
unfoldable pub IsAtLeast : List ℕ → List ℕ → Type 0
unfolding part leading
IsAtLeast xs ys =
    (leading (length xs + length ys) xs ≡ leading (length xs + length ys) ys)
    ⊎ ((i : ℕ) × (leading i xs ≡ leading i ys) × (part i ys < part i xs))

ge_parts-rest :
    (xs ys : List ℕ)
    → ge_parts xs ys
      ≡ (if first xs == first ys then ge_parts (rest xs) (rest ys) else ltb (first ys) (first xs))
unfolding ge_parts first rest
ge_parts-rest [] [] = refl
ge_parts-rest [] (y ∷ ys) = ground arith
ge_parts-rest (x ∷ []) [] = ground arith
ge_parts-rest (x ∷ z ∷ xs) [] = ground arith
ge_parts-rest (x ∷ xs) (y ∷ ys) = refl

length-rest : (n : ℕ) (xs : List ℕ) → length xs ≤ suc n → length (rest xs) ≤ n
unfolding rest
length-rest n [] h = omega arith
length-rest n (x ∷ xs) h = omega arith

-- The comparison of two versions of at most `n` parts.
Compares : ℕ → List ℕ → List ℕ → Type 0
Compares n xs ys =
    (leading n xs ≡ leading n ys)
    ⊎ ((i : ℕ) × (leading i xs ≡ leading i ys) × (part i ys < part i xs))

ge_parts-Compares : (n : ℕ) (xs ys : List ℕ) → ge_parts xs ys ≡ true → Compares n xs ys
unfolding Compares part leading
ge_parts-Compares zero xs ys h = inl refl
ge_parts-Compares (suc n) xs ys h = elim (Bool-cases (first xs == first ys)) [
  | inr differ ↦ inr (zero, refl, let step = ge_parts-rest xs ys in ground arith)
  | inl same ↦
      let e : first xs ≡ first ys = ground arith in
      let step = ge_parts-rest xs ys in
      elim (ge_parts-Compares n (rest xs) (rest ys) (ground arith)) [
        | inl all ↦ inl (rw (e, all) refl)
        | inr (i, before, newer) ↦ inr (suc i, rw (e, before) refl, newer)
      ]
]

leading-ge_parts :
    (n : ℕ) (xs ys : List ℕ)
    → length xs ≤ n
    → length ys ≤ n
    → leading n xs ≡ leading n ys
    → ge_parts xs ys ≡ true
unfolding leading
leading-ge_parts zero [] [] h k e = unfold ge_parts in refl
leading-ge_parts zero (x ∷ xs) ys h k e = absurd (omega arith)
leading-ge_parts zero [] (y ∷ ys) h k e = absurd (omega arith)
leading-ge_parts (suc n) xs ys h k e =
    let same : first xs ≡ first ys = unfold first in ap first e in
    let later : leading n (rest xs) ≡ leading n (rest ys) = unfold rest in ap rest e in
    let all =
      leading-ge_parts n (rest xs) (rest ys) (length-rest n xs h) (length-rest n ys k) later in
    let step = ge_parts-rest xs ys in ground arith

part-ge_parts :
    (i : ℕ) (xs ys : List ℕ)
    → leading i xs ≡ leading i ys
    → part i ys < part i xs
    → ge_parts xs ys ≡ true
unfolding leading part
part-ge_parts zero xs ys e h = let step = ge_parts-rest xs ys in ground arith
part-ge_parts (suc i) xs ys e h =
    let same : first xs ≡ first ys = unfold first in ap first e in
    let later : leading i (rest xs) ≡ leading i (rest ys) = unfold rest in ap rest e in
    let all = part-ge_parts i (rest xs) (rest ys) later h in
    let step = ge_parts-rest xs ys in ground arith

-- A text that reads as a version with the given parts.
pub record Reads (text : String) (parts : List ℕ) : Type 0 where
  pub given : non_empty (strip text) ≡ true
  pub numeric : numeric_version_parts (strip text) ≡ some parts

version_at_least-ge_parts :
    (a b : String) (xs ys : List ℕ)
    → Reads a xs
    → Reads b ys
    → version_at_least a b ≡ ge_parts xs ys
version_at_least-ge_parts a b xs ys h k =
    let e = padded_ge-eq-ge_parts xs ys in
    let given = h.given in
    let given' = k.given in
    let numeric = h.numeric in
    let numeric' = k.numeric in unfold version_at_least in rw (given, given', numeric, numeric') e

-- A version is at least another exactly when they have the same parts, missing parts counting as zero, or
-- it has the greater part at the first place in which they differ; both texts read as versions.
pub version_at_least_iff :
    (a b : String) (xs ys : List ℕ)
    → Reads a xs
    → Reads b ys
    → (version_at_least a b ≡ true) ↔ IsAtLeast xs ys
unfolding IsAtLeast
version_at_least_iff a b xs ys h k =
    let same = version_at_least-ge_parts a b xs ys h k in
    (
      (λ newer.
          unfold Compares in ge_parts-Compares (length xs + length ys) xs ys (rw same at newer)),
      elim [
        | inl all ↦
            same ∙ leading-ge_parts (length xs + length ys) xs ys (omega arith) (omega arith) all
        | inr (i, before, newer) ↦ same ∙ part-ge_parts i xs ys before newer
      ],
    )

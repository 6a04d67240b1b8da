-- ===== src/TaskStore/Capacity/Devices.antt =====
-- What a reservation takes from the GPUs of a worker.
use cloudlink.Prelude.{
  ℕ, zero, suc, ◌+◌, ◌*◌, ◌≤◌, min, Bool, true, false, List, [], ◌∷◌, ◌≡◌, ◌∙◌, refl, sym, ap,
  arith, if◌then◌else◌, ◌==◌, nat_eq, leb, ltb, length, select, count_where, sum_of, contains,
  order_by, insert_by, Bool-cases, inl, inr, subst,
}
use cloudlink.ResourceModel.Types.{GpuDevice, GpuRequest}
use cloudlink.ResourceModel.Fits.{count_or_one, matching}
use cloudlink.TaskStore.Capacity.{
  indexed, take_indices, selected_indices, reduce_at, subtract_gpu_reservation,
}

-- What is taken from a device, when these are the indices.
taken : ℕ → List ℕ → ℕ × ℕ → ℕ
taken memory selected p = if contains p.0 selected then min memory p.1 else 0

has_index : ℕ → ℕ × ℕ → Bool
has_index k p = p.0 == k

is_large : ℕ → ℕ × ℕ → Bool
is_large memory p = leb memory p.1

memory_of : List GpuDevice → ℕ
memory_of ds = sum_of (λ d. d.memory_bytes) ds

reduce_at-memory :
    (memory : ℕ) (selected : List ℕ) (i : ℕ) (ds : List GpuDevice)
    → memory_of (reduce_at memory selected i ds) + sum_of (taken memory selected) (indexed i ds)
      ≡ memory_of ds
unfolding reduce_at indexed taken memory_of
reduce_at-memory memory selected i [] = refl
reduce_at-memory memory selected i (d ∷ ds) =
    let rest = reduce_at-memory memory selected (suc i) ds in
    elim (Bool-cases (contains i selected)) [
      | inl hit ↦ rw hit (omega arith)
      | inr miss ↦ rw miss (omega arith)
    ]

indexed_late :
    (k i : ℕ) (ds : List GpuDevice) → suc k ≤ i → count_where (has_index k) (indexed i ds) ≡ 0
unfolding indexed has_index
indexed_late k i [] h = refl
indexed_late k i (d ∷ ds) h = ground (arith, indexed_late k (suc i) ds)

indexed_once : (k i : ℕ) (ds : List GpuDevice) → count_where (has_index k) (indexed i ds) ≤ 1
unfolding indexed has_index
indexed_once k i [] = omega arith
indexed_once k i (d ∷ ds) =
    let once = indexed_once k (suc i) ds in
    elim (Bool-cases (i == k)) [
      | inl hit ↦ let none_later = indexed_late k (suc i) ds (ground arith) in ground arith
      | inr miss ↦ ground arith
    ]

indexed-matching :
    (memory i : ℕ) (ds : List GpuDevice)
    → count_where (is_large memory) (indexed i ds) ≡ length (matching memory ds)
unfolding indexed is_large
indexed-matching memory i [] = refl
indexed-matching memory i (d ∷ ds) = ground (arith, indexed-matching memory (suc i) ds)

-- The indices that are taken out of a list do not name what is not in it.
take_indices_absent :
    (memory k n : ℕ) (ps : List (ℕ × ℕ))
    → count_where (has_index k) ps ≡ 0
    → contains k (take_indices n (select (is_large memory) ps)) ≡ false
unfolding take_indices is_large has_index
take_indices_absent memory k zero [] h = refl
take_indices_absent memory k (suc n) [] h = refl
take_indices_absent memory k zero (p ∷ ps) h = refl
take_indices_absent memory k (suc n) ((i, m) ∷ ps) h =
    let differ : (i == k) ≡ false = ground arith in
    let absent : count_where (λ p. p.0 == k) ps ≡ 0 = ground arith in
    let apart : (k == i) ≡ false = ground arith in
    elim (Bool-cases (leb memory m)) [
      | inl large ↦ rw (large, apart) (take_indices_absent memory k n ps absent)
      | inr small ↦ rw small (take_indices_absent memory k (suc n) ps absent)
    ]

taken_absent :
    (memory k : ℕ) (selected : List ℕ) (ps : List (ℕ × ℕ))
    → count_where (has_index k) ps ≡ 0
    → sum_of (taken memory (k ∷ selected)) ps ≡ sum_of (taken memory selected) ps
unfolding taken has_index
taken_absent memory k selected [] h = refl
taken_absent memory k selected ((i, m) ∷ ps) h =
    let differ : (i == k) ≡ false = ground arith in
    let rest = taken_absent memory k selected ps (ground arith) in rw (differ, rest) refl

taken_none : (memory : ℕ) (ps : List (ℕ × ℕ)) → sum_of (taken memory []) ps ≡ 0
unfolding taken
taken_none memory [] = refl
taken_none memory (p ∷ ps) = let rest = taken_none memory ps in omega arith

taken-selected :
    (memory n : ℕ) (ps : List (ℕ × ℕ))
    → ((k : ℕ) → count_where (has_index k) ps ≤ 1)
    → n ≤ count_where (is_large memory) ps
    → sum_of (taken memory (take_indices n (select (is_large memory) ps))) ps ≡ n * memory
unfolding take_indices
taken-selected memory n [] once h =
    let none_left : n ≡ 0 = omega arith in rw none_left (omega arith)
taken-selected memory zero (p ∷ ps) once h = taken_none memory (p ∷ ps) ∙ (omega arith)
taken-selected memory (suc n) ((i, m) ∷ ps) once h =
    let own = once i in
    let absent : count_where (has_index i) ps ≡ 0 = unfold has_index in ground arith in
    let later : (k : ℕ) → count_where (has_index k) ps ≤ 1 =
      λ k. let one = once k in unfold has_index in ground arith in
    elim (Bool-cases (leb memory m)) [
      | inl large ↦
          let enough : n ≤ count_where (is_large memory) ps = unfold is_large in ground arith in
          let rest = taken-selected memory n ps later enough in
          let same =
            taken_absent memory i (take_indices n (select (is_large memory) ps)) ps absent in
          let first : taken memory (i ∷ take_indices n (select (is_large memory) ps)) (i, m)
              ≡ memory =
            unfold taken in ground arith in
          let picked : is_large memory (i, m) ≡ true = unfold is_large in large in
          let selected : take_indices (suc n) (select (is_large memory) ((i, m) ∷ ps))
              ≡ i ∷ take_indices n (select (is_large memory) ps) =
            rw picked refl in
          subst (λ k. sum_of (taken memory k) ((i, m) ∷ ps) ≡ suc n * memory) (sym selected)
            (omega arith)
      | inr small ↦
          let enough : suc n ≤ count_where (is_large memory) ps = unfold is_large in ground arith in
          let rest = taken-selected memory (suc n) ps later enough in
          let out = take_indices_absent memory i (suc n) ps absent in
          let first : taken memory (take_indices (suc n) (select (is_large memory) ps)) (i, m) ≡ 0 =
            unfold taken in rw out refl in
          let passed : is_large memory (i, m) ≡ false = unfold is_large in small in
          let selected : take_indices (suc n) (select (is_large memory) ((i, m) ∷ ps))
              ≡ take_indices (suc n) (select (is_large memory) ps) =
            rw passed refl in
          subst (λ k. sum_of (taken memory k) ((i, m) ∷ ps) ≡ suc n * memory) (sym selected)
            (omega arith)
    ]

module _ {A : Type 0} (key : A → ℕ) where
  sum-insert_by :
      (g : A → ℕ) (x : A) (ys : List A) → sum_of g (insert_by key x ys) ≡ g x + sum_of g ys
  sum-insert_by g x [] = refl
  sum-insert_by g x (y ∷ ys) = ground (arith, sum-insert_by g x ys)

  sum-order_by : (g : A → ℕ) (xs : List A) → sum_of g (order_by key xs) ≡ sum_of g xs
  sum-order_by g [] = refl
  sum-order_by g (x ∷ xs) =
      sum-insert_by g x (order_by key xs) ∙ (let rest = sum-order_by g xs in omega arith)

  count-insert_by :
      (q : A → Bool) (x : A) (ys : List A)
      → count_where q (insert_by key x ys) ≡ count_where q (x ∷ ys)
  count-insert_by q x [] = refl
  count-insert_by q x (y ∷ ys) = ground (arith, count-insert_by q x ys)

  count-order_by : (q : A → Bool) (xs : List A) → count_where q (order_by key xs) ≡ count_where q xs
  count-order_by q [] = refl
  count-order_by q (x ∷ xs) =
      count-insert_by q x (order_by key xs) ∙ (let rest = count-order_by q xs in ground arith)

length-take_indices :
    (memory n : ℕ) (ps : List (ℕ × ℕ))
    → n ≤ count_where (is_large memory) ps
    → length (take_indices n (select (is_large memory) ps)) ≡ n
unfolding take_indices
length-take_indices memory n [] h = let none_left : n ≡ 0 = omega arith in rw none_left refl
length-take_indices memory zero (p ∷ ps) h = refl
length-take_indices memory (suc n) ((i, m) ∷ ps) h = elim (Bool-cases (is_large memory (i, m))) [
  | inl large ↦ rw large (ap suc (length-take_indices memory n ps (ground arith)))
  | inr small ↦ rw small (length-take_indices memory (suc n) ps (ground arith))
]

served :
    (memory n : ℕ) (selected : List ℕ) (ds : List GpuDevice)
    → length selected ≡ n
    → (if ltb (length selected) n then ds else reduce_at memory selected 0 ds)
      ≡ reduce_at memory selected 0 ds
served memory n selected ds h = ground arith

-- A GPU reservation for which enough devices have the memory takes that memory from as many devices as
-- it asks for, or from one: the memory of all devices shrinks by exactly that.
pub subtract_gpu_reservation-takes :
    (ds : List GpuDevice) (r : GpuRequest)
    → r.required ≡ true
    → count_or_one r.count ≤ length (matching r.memory_bytes ds)
    → sum_of (λ d. d.memory_bytes) (subtract_gpu_reservation ds r)
        + count_or_one r.count * r.memory_bytes
      ≡ sum_of (λ d. d.memory_bytes) ds
unfolding subtract_gpu_reservation selected_indices is_large memory_of
subtract_gpu_reservation-takes ds r required enough =
    let m = r.memory_bytes in
    let n = count_or_one r.count in
    let q : List (ℕ × ℕ) = order_by (λ p. p.1) (indexed 0 ds) in
    let large : n ≤ count_where (is_large m) q =
      rw (count-order_by (λ p. p.1) (is_large m) (indexed 0 ds), indexed-matching m 0 ds) enough in
    let once : (k : ℕ) → count_where (has_index k) q ≤ 1 =
      λ k. rw (count-order_by (λ p. p.1) (has_index k) (indexed 0 ds)) (indexed_once k 0 ds) in
    let selected : List ℕ = take_indices n (select (is_large m) q) in
    let all : length selected ≡ n = length-take_indices m n q large in
    let taken_all : sum_of (taken m selected) (indexed 0 ds) ≡ n * m =
      sym (sum-order_by (λ p. p.1) (taken m selected) (indexed 0 ds))
      ∙ taken-selected m n q once large in
    let left = reduce_at-memory m selected 0 ds in
    let kept : subtract_gpu_reservation ds r ≡ reduce_at m selected 0 ds =
      rw required (served m n selected ds all) in
    rw kept (omega arith)

-- ===== src/TaskStore/Assignment/Sums.antt =====
-- How counts and sums over the tasks change when one row does, and what is left of a capacity.
use cloudlink.Prelude.{
  ℕ, suc, ◌+◌, ◌≤◌, Bool, true, false, String, List, [], ◌∷◌, Option, some, ◌≡◌, refl, ap, ◌∙◌,
  arith, find, count_where, update_where, sum_of, select, not, none, if◌then◌else◌, string_eq,
  option_eq, eq_of_beq, Bool-cases, inl, inr,
}
use cloudlink.ResourceModel.Types.{ResourceRequest, Capacity}
use cloudlink.Database.Tasks.{Time, Task}
use cloudlink.Database.Action.{Settings}
use cloudlink.TaskStore.Capacity.{
  is_running, runs_on, reservations, less, subtract_reservation, subtract_all,
}
use cloudlink.TaskStore.Queue.{has_id}
use cloudlink.TaskStore.Claim.{locked}
use cloudlink.TaskStore.Lifecycle.{Unique}

module _ (id : String) (f : Task → Task) where
  update_where_absent :
      (ts : List Task) → find (has_id id) ts ≡ none → update_where (has_id id) f ts ≡ ts
  update_where_absent [] h = refl
  update_where_absent (t ∷ ts) h = ground (arith, update_where_absent ts)

  rest_absent :
      (x : Task) (ts : List Task)
      → has_id id x ≡ true
      → Unique (x ∷ ts)
      → update_where (has_id id) f ts ≡ ts
  rest_absent x ts hit u =
      let same : x.id ≡ id = eq_of_beq x.id id hit in update_where_absent ts (rw (← same) u.0)

  -- One row changes, so a count grows by one at most.
  pub count-update_where-le :
      (p : Task → Bool) (ts : List Task)
      → Unique ts
      → count_where p (update_where (has_id id) f ts) ≤ suc (count_where p ts)
  count-update_where-le p [] u = omega arith
  count-update_where-le p (x ∷ ts) u = elim (Bool-cases (has_id id x)) [
    | inl hit ↦ rw (hit, rest_absent x ts hit u) (ground arith)
    | inr miss ↦ rw miss (ground (arith, count-update_where-le p ts u.1))
  ]

module _ (settings : Settings) (now later : Time) (lease worker : String) (r : ResourceRequest)
    (id : String) where
  -- What a worker's tasks hold grows by the new reservation at most.
  pub sum-reservations-le :
      (g : ResourceRequest → ℕ) (ts : List Task)
      → Unique ts
      → sum_of g (
          reservations worker later
            (update_where (has_id id) (locked settings now later lease worker r) ts))
        ≤ sum_of g (reservations worker later ts) + g r
  sum-reservations-le g [] u = omega arith
  sum-reservations-le g (x ∷ ts) u = elim (Bool-cases (has_id id x)) [
    | inl hit ↦
        rw (hit, rest_absent id (locked settings now later lease worker r) x ts hit u)
          (ground arith)
    | inr miss ↦ rw miss (ground (arith, sum-reservations-le g ts u.1))
  ]

-- The tasks but the one with this key.
abbrev pub others : String → List Task → List Task
others id ts = select (λ t. not (has_id id t)) ts

others_all : (id : String) (ts : List Task) → find (has_id id) ts ≡ none → others id ts ≡ ts
others_all id [] h = refl
others_all id (t ∷ ts) h = ground (arith, others_all id ts)

reservations_cons :
    (worker : String) (later : Time) (t : Task) (us vs : List Task)
    → reservations worker later us ≡ reservations worker later vs
    → reservations worker later (t ∷ us) ≡ reservations worker later (t ∷ vs)
reservations_cons worker later t us vs h =
    ap
      (λ rest.
        if runs_on worker later t
        then elim t.resource_reservation [ none ↦ rest | some r ↦ r ∷ rest ]
        else rest)
      h

-- What the other tasks hold is what all held while the task with this key did not run.
pub reservations-others :
    (worker id : String) (later : Time) (f : Task → Task) (ts : List Task) (t : Task)
    → ((u : Task) → (f u).id ≡ u.id)
    → Unique ts
    → find (has_id id) ts ≡ some t
    → is_running t.status ≡ false
    → reservations worker later (others id (update_where (has_id id) f ts))
      ≡ reservations worker later ts
reservations-others worker id later f [] t keeps u h idle = absurd (cc)
reservations-others worker id later f (x ∷ ts) t keeps u h idle = elim (Bool-cases (has_id id x)) [
  | inl hit ↦
      let same : x.id ≡ id = eq_of_beq x.id id hit in
      let x_is : x ≡ t = ground arith in
      let idle_x : is_running x.status ≡ false = rw x_is idle in
      let all = others_all id ts (rw (← same) u.0) in
      rw (hit, keeps x, hit, rest_absent id f x ts hit u, all, idle_x) refl
  | inr miss ↦
      rw (miss, miss)
        (reservations_cons worker later x (others id (update_where (has_id id) f ts)) ts
          (reservations-others worker id later f ts t keeps u.1 (rw miss at h) idle))
]

less-less : (c : Option ℕ) (m n : ℕ) → less (less c m) n ≡ less c (m + n)
less-less none m n = refl
less-less (some c) m n = ap some (omega arith)

module _ (g : ResourceRequest → ℕ) (field : Capacity → Option ℕ)
    (one : (c : Capacity) (r : ResourceRequest)
      → field (subtract_reservation c r) ≡ less (field c) (g r)) where
  less_zero : (c : Option ℕ) → c ≡ less c 0
  less_zero none = refl
  less_zero (some n) = ap some (omega arith)

  -- What is left of a resource is what there was without the sum of what is reserved.
  pub subtract_all-sum :
      (c : Capacity) (rs : List ResourceRequest)
      → field (subtract_all c rs) ≡ less (field c) (sum_of g rs)
  unfolding subtract_all
  subtract_all-sum c [] = less_zero (field c)
  subtract_all-sum c (r ∷ rs) =
      subtract_all-sum (subtract_reservation c r) rs
      ∙ rw (one c r) (less-less (field c) (g r) (sum_of g rs))

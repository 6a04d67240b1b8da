-- ===== src/TaskStore/Lifecycle/Updates.antt =====
-- An update whose setter keeps the rows well formed and moves them forward keeps the whole table so.
use text.Mathlib.TextEquality.{eq_iff}
use cloudlink.Prelude.{
  Bool, true, false, ◌&&◌, String, List, [], ◌∷◌, ◌++◌, none, some, ◌≡◌, refl, inl, inr, arith,
  string_eq, find, any, update_where, All, All-append, Bool-cases, eq_of_beq,
}
use cloudlink.Database.Tasks.{Task}
use cloudlink.Database.Action.{Db}
use cloudlink.TaskStore.Queue.{has_id, on_tasks, set_task}
use cloudlink.TaskStore.Lifecycle.{
  Moves, Moves-refl, Evolves, Evolves-refl, Evolves-trans, IsSound, Unique, IsValid,
}

-- A setter on the rows that satisfy a condition.
abbrev pub Advances : (Task → Bool) → (Task → Task) → Type 0
Advances p f = (t : Task) → p t ≡ true → IsSound t → IsSound (f t) × Moves t (f t)

-- A later state of the database: well formed, and every task has moved forward.
pub record Later (db db' : Db) : Type 0 where
  pub valid : IsValid db'
  pub evolves : Evolves db.tasks db'.tasks

pub Later-refl : (db : Db) → IsValid db → Later db db
Later-refl db v = record { valid = v; evolves = Evolves-refl db.tasks }

pub Later-trans : (a b c : Db) → Later a b → Later b c → Later a c
Later-trans a b c h k = record {
  valid = k.valid;
  evolves = Evolves-trans a.tasks b.tasks c.tasks h.evolves k.evolves;
}

-- Another table has changed.
pub Later-same_tasks : (db db' : Db) → db'.tasks ≡ db.tasks → IsValid db → Later db db'
Later-same_tasks db db' e v = record {
  valid = record { sound = rw e v.sound; unique = rw e v.unique };
  evolves = rw e (Evolves-refl db.tasks);
}

module _ (p : Task → Bool) (f : Task → Task) (ok : Advances p f) where
  find-update_where :
      (id : String) (ts : List Task)
      → All IsSound ts
      → find (has_id id) ts ≡ none
      → find (has_id id) (update_where p f ts) ≡ none
  find-update_where id [] s h = refl
  find-update_where id (t ∷ ts) s h = ground (arith, ok t, find-update_where id ts s.1)

  Unique-update_where : (ts : List Task) → All IsSound ts → Unique ts → Unique (update_where p f ts)
  Unique-update_where [] s u = tt
  Unique-update_where (t ∷ ts) s u =
      ground (arith, ok t, find-update_where t.id ts s.1 u.0, Unique-update_where ts s.1 u.1)

  All-update_where : (ts : List Task) → All IsSound ts → All IsSound (update_where p f ts)
  All-update_where [] s = tt
  All-update_where (t ∷ ts) s = ground (arith, ok t, All-update_where ts s.1)

  Evolves-update_where : (ts : List Task) → All IsSound ts → Evolves ts (update_where p f ts)
  Evolves-update_where [] s = tt
  Evolves-update_where (t ∷ ts) s = ground (arith, ok t, Moves-refl t, Evolves-update_where ts s.1)

  pub update_where-Later : (db : Db) → IsValid db → Later db (on_tasks (update_where p f) db)
  update_where-Later db v = record {
    valid = record {
      sound = All-update_where db.tasks v.sound;
      unique = Unique-update_where db.tasks v.sound v.unique;
    };
    evolves = Evolves-update_where db.tasks v.sound;
  }

module _ (id : String) (f : Task → Task) (q : Task → Bool) where
  -- Where no row has the key nothing changes.
  update_where-none :
      (ts : List Task)
      → find (has_id id) ts ≡ none
      → update_where (has_id id) f ts ≡ update_where (λ u. has_id id u && q u) f ts
  update_where-none [] h = refl
  update_where-none (t ∷ ts) h = ground (arith, update_where-none ts)

  -- The row that the key names is the only one that an update by the key changes, so a condition
  -- that this row meets can be put beside the key.
  update_where_guard :
      (ts : List Task) (t : Task)
      → Unique ts
      → find (has_id id) ts ≡ some t
      → q t ≡ true
      → update_where (has_id id) f ts ≡ update_where (λ u. has_id id u && q u) f ts
  update_where_guard [] t u h e = refl
  update_where_guard (x ∷ ts) t u h e = elim (Bool-cases (has_id id x)) [
    | inl hit ↦
        let same : x.id ≡ id = eq_of_beq x.id id hit in
        let rest = update_where-none ts (rw (← same) u.0) in ground arith
    | inr miss ↦ ground (arith, update_where_guard ts t u.1)
  ]

  -- An update of the row that was read.
  pub set_task-Later :
      (db : Db) (t : Task)
      → find (has_id id) db.tasks ≡ some t
      → q t ≡ true
      → Advances (λ u. has_id id u && q u) f
      → IsValid db
      → Later db (set_task id f db)
  set_task-Later db t h e ok v =
      let guarded = update_where_guard db.tasks t v.unique h e in
      let later = update_where-Later (λ u. has_id id u && q u) f ok db v in
      record {
        valid = record {
          sound = rw guarded later.valid.sound;
          unique = rw guarded later.valid.unique;
        };
        evolves = rw guarded later.evolves;
      }

-- A new row with a fresh key behind the others.
find_append :
    (id : String) (ts : List Task) (t : Task)
    → find (has_id id) ts ≡ none
    → has_id id t ≡ false
    → find (has_id id) (ts ++ t ∷ []) ≡ none
find_append id [] t h e = ground arith
find_append id (x ∷ ts) t h e = ground (arith, find_append id ts t)

Unique-append :
    (ts : List Task) (t : Task) → Unique ts → any (has_id t.id) ts ≡ false → Unique (ts ++ t ∷ [])
Unique-append [] t u h = (refl, tt)
Unique-append (x ∷ ts) t u h =
    let apart : has_id x.id t ≡ false = ground (arith, eq_iff x.id t.id, eq_iff t.id x.id) in
    (find_append x.id ts t u.0 apart, Unique-append ts t u.1 (ground arith))

Evolves-append : (ts us : List Task) → Evolves ts (ts ++ us)
Evolves-append [] us = tt
Evolves-append (t ∷ ts) us = (Moves-refl t, Evolves-append ts us)

pub append-Later :
    (db : Db) (t : Task)
    → any (has_id t.id) db.tasks ≡ false
    → IsSound t
    → IsValid db
    → Later db (on_tasks (λ ts. ts ++ t ∷ []) db)
append-Later db t fresh sound v = record {
  valid = record {
    sound = All-append IsSound db.tasks (t ∷ []) v.sound (sound, tt);
    unique = Unique-append db.tasks t v.unique fresh;
  };
  evolves = Evolves-append db.tasks (t ∷ []);
}

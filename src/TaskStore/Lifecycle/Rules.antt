-- ===== src/TaskStore/Lifecycle/Rules.antt =====
-- Rules for computations that keep the database well formed and move its tasks forward.
use cloudlink.Prelude.{Bool, true, false, if◌then◌else◌, ◌≡◌, refl}
use mathlib.Core.Path.{subst}
use cloudlink.Errors.{Error, Result, ok, err}
use cloudlink.Database.Action.{
  Db, Action, ◌>>=◌, ◌>>◌, query, execute, transaction, pure, raise, bind_result, rollback,
}
use cloudlink.TaskStore.Lifecycle.{IsValid}
use cloudlink.TaskStore.Lifecycle.Updates.{Later, Later-refl, Later-trans}

abbrev pub Keeps : {A : Type 0} → Action A → Type 0
Keeps m = (db : Db) → IsValid db → Later db (m db).1

-- A query, and what follows it with what it has found.
pub query_rule {ℓ} :
    {A B : Type 0} (r : Db → Result A) (f : A → Action B) (db : Db) (P : Result B × Db → Type ℓ)
    → ((e : Error) → r db ≡ err e → P (err e, db))
    → ((a : A) → r db ≡ ok a → P (f a db))
    → P ((query r >>= f) db)
unfolding ◌>>=◌ query
query_rule {A} {B} r f db P failed found = go (r db) refl
  where
    go : (x : Result A) → r db ≡ x → P (bind_result (x, db) f)
    go (ok a) h = found a h
    go (err e) h = failed e h

pub Keeps-query :
    {A B : Type 0} (r : Db → Result A) (f : A → Action B)
    → ((a : A) → Keeps (f a))
    → Keeps (query r >>= f)
Keeps-query r f k db v =
    query_rule r f db (λ out. Later db out.1) (λ e _. Later-refl db v) (λ a _. k a db v)

pub Keeps-bind :
    {A B : Type 0} (m : Action A) (f : A → Action B)
    → Keeps m
    → ((a : A) → Keeps (f a))
    → Keeps (m >>= f)
unfolding ◌>>=◌
Keeps-bind {A} {B} m f h k db v = go (m db).0 (m db).1 (h db v)
  where
    go : (x : Result A) (db' : Db) → Later db db' → Later db (bind_result (x, db') f).1
    go (ok a) db' l = Later-trans db db' (f a db').1 l (k a db' l.valid)
    go (err e) db' l = l

-- A write at one state, and what follows it.
pub write_rule :
    {B : Type 0} (f : Db → Db) (m : Action B) (db : Db)
    → Later db (f db)
    → Keeps m
    → Later db ((execute f >> m) db).1
unfolding ◌>>=◌ execute
write_rule f m db h k = Later-trans db (f db) (m (f db)).1 h (k (f db) h.valid)

-- A write, and what follows it.
pub Keeps-then :
    {B : Type 0} (f : Db → Db) (m : Action B)
    → ((db : Db) → IsValid db → Later db (f db))
    → Keeps m
    → Keeps (execute f >> m)
unfolding ◌>>=◌ execute
Keeps-then f m h k db v = Later-trans db (f db) (m (f db)).1 (h db v) (k (f db) (h db v).valid)

pub Keeps-transaction : {A : Type 0} (m : Action A) → Keeps m → Keeps (transaction m)
unfolding transaction
Keeps-transaction {A} m h db v = go (m db).0 (m db).1 (h db v)
  where
    go : (x : Result A) (db' : Db) → Later db db' → Later db (rollback db (x, db')).1
    go (ok a) db' l = l
    go (err e) db' l = Later-refl db v

pub Keeps-pure : {A : Type 0} (a : A) → Keeps (pure a)
unfolding pure
Keeps-pure a db v = Later-refl db v

pub Keeps-raise : (A : Type 0) (e : Error) → Keeps (raise {A = A} e)
unfolding raise
Keeps-raise A e db v = Later-refl db v

-- A query that comes last.
pub Keeps-query_last : {A : Type 0} (r : Db → Result A) → Keeps (query r)
unfolding query
Keeps-query_last r db v = Later-refl db v

-- A branch at one state.
pub branch_rule :
    {A : Type 0} (b : Bool) (m n : Action A) (db : Db)
    → (b ≡ true → Later db (m db).1)
    → (b ≡ false → Later db (n db).1)
    → Later db ((if b then m else n) db).1
branch_rule true m n db h k = h refl
branch_rule false m n db h k = k refl

pub Keeps-if :
    {A : Type 0} (b : Bool) (m n : Action A) → Keeps m → Keeps n → Keeps (if b then m else n)
Keeps-if b m n h k db v = branch_rule b m n db (λ _. h db v) (λ _. k db v)

-- The rule read at a run.
pub Keeps-run :
    {A : Type 0} (m : Action A) (db db' : Db) (x : Result A)
    → Keeps m
    → m db ≡ (x, db')
    → IsValid db
    → Later db db'
Keeps-run m db db' x k e v = subst (λ p. Later db p.1) e (k db v)

-- ===== src/Database/Runs.antt =====
-- What a run of a store function that returns has gone through.
use cloudlink.Prelude.{◌≡◌, refl, ap, arith}
use cloudlink.Errors.{Error, Result, ok, err}
use cloudlink.Database.Action.{
  Db, Action, ◌>>=◌, ◌>>◌, query, execute, pure, transaction, rollback, bind_result,
}

pub bind_ok :
    {A B : Type 0} (m : Action A) (f : A → Action B) (db db' : Db) (b : B)
    → (m >>= f) db ≡ (ok b, db')
    → (a : A) × (between : Db) × (m db ≡ (ok a, between)) × (f a between ≡ (ok b, db'))
unfolding ◌>>=◌
bind_ok {A} {B} m f db db' b h = go (m db) refl h
  where
    go :
        (x : Result A × Db)
        → m db ≡ x
        → bind_result x f ≡ (ok b, db')
        → (a : A) × (between : Db) × (m db ≡ (ok a, between)) × (f a between ≡ (ok b, db'))
    go (ok a, between) e k = (a, between, e, k)
    go (err x, between) e k = absurd (ground arith)

-- A query reads: it hands on what it found and leaves the database.
pub query_ok :
    {A B : Type 0} (r : Db → Result A) (f : A → Action B) (db db' : Db) (b : B)
    → (query r >>= f) db ≡ (ok b, db')
    → (a : A) × (r db ≡ ok a) × (f a db ≡ (ok b, db'))
unfolding ◌>>=◌ query
query_ok {A} {B} r f db db' b h = go (r db) refl h
  where
    go :
        (x : Result A)
        → r db ≡ x
        → bind_result (x, db) f ≡ (ok b, db')
        → (a : A) × (r db ≡ ok a) × (f a db ≡ (ok b, db'))
    go (ok a) e k = (a, e, k)
    go (err x) e k = absurd (ground arith)

pub execute_ok :
    {B : Type 0} (f : Db → Db) (m : Action B) (db db' : Db) (b : B)
    → (execute f >> m) db ≡ (ok b, db')
    → m (f db) ≡ (ok b, db')
unfolding ◌>>=◌ execute
execute_ok f m db db' b h = h

pub transaction_ok :
    {A : Type 0} (m : Action A) (db db' : Db) (a : A)
    → transaction m db ≡ (ok a, db')
    → m db ≡ (ok a, db')
unfolding transaction
transaction_ok {A} m db db' a h = go (m db) h
  where
    go : (x : Result A × Db) → rollback db x ≡ (ok a, db') → x ≡ (ok a, db')
    go (ok b, after) k = k
    go (err e, after) k = absurd (ground arith)

pub pure_ok : {A : Type 0} (a b : A) (db db' : Db) → pure a db ≡ (ok b, db') → (a ≡ b) × (db ≡ db')
unfolding pure
pure_ok a b db db' h = (ground arith, ap (λ p. p.1) h)

-- A query that finds something goes on with it.
pub run_query :
    {A B : Type 0} (r : Db → Result A) (f : A → Action B) (db : Db) (a : A)
    → r db ≡ ok a
    → (query r >>= f) db ≡ f a db
unfolding ◌>>=◌ query
run_query r f db a h = rw h refl

-- A query that raises ends the run.
pub run_query_raises :
    {A B : Type 0} (r : Db → Result A) (f : A → Action B) (db : Db) (e : Error)
    → r db ≡ err e
    → (query r >>= f) db ≡ (err e, db)
unfolding ◌>>=◌ query
run_query_raises r f db e h = rw h refl

pub run_bind_raises :
    {A B : Type 0} (m : Action A) (f : A → Action B) (db db' : Db) (e : Error)
    → m db ≡ (err e, db')
    → (m >>= f) db ≡ (err e, db')
unfolding ◌>>=◌
run_bind_raises m f db db' e h = rw h refl

-- A query and what follows leave the database alone when what follows does.
pub query_leaves :
    {A B : Type 0} (r : Db → Result A) (f : A → Action B) (db : Db)
    → ((a : A) → r db ≡ ok a → (f a db).1 ≡ db)
    → ((query r >>= f) db).1 ≡ db
unfolding ◌>>=◌ query
query_leaves {A} {B} r f db k = go (r db) refl
  where
    go : (x : Result A) → r db ≡ x → (bind_result (x, db) f).1 ≡ db
    go (ok a) e = k a e
    go (err e) h = refl

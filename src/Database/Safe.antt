-- ===== src/Database/Safe.antt =====
-- What a store function leaves and what it returns, by rules on its statements.
use cloudlink.Prelude.{Bool, true, false, not, ◌≡◌, refl, arith, if◌then◌else◌}
use cloudlink.Errors.{Error, Result, ok, err, raise_if}
use cloudlink.Database.Action.{Db, Action, ◌>>=◌, ◌>>◌, query, execute, pure, raise, bind_result}

-- A check that raises nothing.
pub passed : (b : Bool) (e : Error) (u : Unit {0}) → raise_if (not b) e ≡ ok u → b ≡ true
passed b e u h = ground arith

module _ {A : Type 0} (P : Db → Type 0) (Q : A → Db → Type 0) where
  -- The run leaves a database with `P`, also when it raises, and what it returns meets `Q`.
  unfoldable pub Leaves : Result A × Db → Type 0
  Leaves (ok a, db) = P db × Q a db
  Leaves (err e, db) = P db

  pub Leaves-query :
      {B : Type 0} (r : Db → Result B) (f : B → Action A) (db : Db)
      → P db
      → ((b : B) → r db ≡ ok b → Leaves (f b db))
      → Leaves ((query r >>= f) db)
  unfolding Leaves ◌>>=◌ query
  Leaves-query {B} r f db p k = go (r db) refl
    where
      go : (x : Result B) → r db ≡ x → Leaves (bind_result (x, db) f)
      go (ok b) e = k b e
      go (err x) e = p

  -- A step whose outcome is known.
  pub Leaves-step :
      {B : Type 0} (m : Action B) (f : B → Action A) (db after : Db) (b : B)
      → m db ≡ (ok b, after)
      → Leaves (f b after)
      → Leaves ((m >>= f) db)
  unfolding ◌>>=◌
  Leaves-step m f db after b e h = rw e h

  pub Leaves-read :
      {B : Type 0} (r : Db → Result B) (f : B → Action A) (db : Db) (b : B)
      → r db ≡ ok b
      → Leaves (f b db)
      → Leaves ((query r >>= f) db)
  unfolding ◌>>=◌ query
  Leaves-read r f db b e h = rw e h

  -- A query that ends a run.
  pub Leaves-last :
      (r : Db → Result A) (db : Db) → P db → ((a : A) → r db ≡ ok a → Q a db) → Leaves (query r db)
  unfolding query Leaves
  Leaves-last r db p k = go (r db) refl
    where
      go : (x : Result A) → r db ≡ x → Leaves (x, db)
      go (ok a) e = (p, k a e)
      go (err x) e = p

  pub Leaves-execute :
      (f : Db → Db) (m : Action A) (db : Db) → Leaves (m (f db)) → Leaves ((execute f >> m) db)
  unfolding Leaves ◌>>=◌ execute
  Leaves-execute f m db h = h

  pub Leaves-pure : (a : A) (db : Db) → P db → Q a db → Leaves (pure a db)
  unfolding Leaves pure
  Leaves-pure a db p q = (p, q)

  pub Leaves-raise : (e : Error) (db : Db) → P db → Leaves (raise e db)
  unfolding Leaves raise
  Leaves-raise e db p = p

  pub Leaves-if :
      (b : Bool) (m k : Action A) (db : Db)
      → (b ≡ true → Leaves (m db))
      → (b ≡ false → Leaves (k db))
      → Leaves ((if b then m else k) db)
  Leaves-if true m k db h l = h refl
  Leaves-if false m k db h l = l refl

  pub Leaves-state : (x : Result A × Db) → Leaves x → P x.1
  unfolding Leaves
  Leaves-state (ok a, db) h = h.0
  Leaves-state (err e, db) h = h

  pub Leaves-result :
      (x : Result A × Db) (a : A) (db : Db) → Leaves x → x ≡ (ok a, db) → P db × Q a db
  unfolding Leaves
  Leaves-result x a db h e = rw e at h

-- A part of a run, and what follows it.
pub Leaves-then :
    {A B : Type 0} (P : Db → Type 0) (Q : A → Db → Type 0) (m : Action B) (f : B → Action A)
    (db : Db)
    → Leaves P (λ b after. Leaves P Q (f b after)) (m db)
    → Leaves P Q ((m >>= f) db)
unfolding ◌>>=◌ Leaves
Leaves-then {A} {B} P Q m f db h = go (m db) h
  where
    go :
        (x : Result B × Db)
        → Leaves P (λ b after. Leaves P Q (f b after)) x
        → Leaves P Q (bind_result x f)
    go (ok b, after) k = k.1
    go (err e, after) k = k

pub Leaves-map :
    {A : Type 0} (P : Db → Type 0) (Q R : A → Db → Type 0) (x : Result A × Db)
    → ((a : A) (db : Db) → P db → Q a db → R a db)
    → Leaves P Q x
    → Leaves P R x
unfolding Leaves
Leaves-map P Q R (ok a, db) f h = (h.0, f a db h.0 h.1)
Leaves-map P Q R (err e, db) f h = h

-- What is known of the outcome of a run.
pub Leaves-of :
    {A : Type 0} (P : Db → Type 0) (Q : A → Db → Type 0) (x : Result A × Db)
    → P x.1
    → ((a : A) (db : Db) → x ≡ (ok a, db) → Q a db)
    → Leaves P Q x
unfolding Leaves
Leaves-of P Q (ok a, db) p q = (p, q a db refl)
Leaves-of P Q (err e, db) p q = p

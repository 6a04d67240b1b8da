-- ===== src/StorageCleanup/Counts.antt =====
-- What `_finish_run` returns.
use cloudlink.Prelude.{
  String, List, [], ◌∷◌, some, ◌≡◌, refl, arith, ◌==◌, string_eq, find, update_where, Bool-cases,
  inl, inr, Option, none,
}
use cloudlink.Errors.{ok, or_raise, value_error}
use cloudlink.Database.Tasks.{Time}
use cloudlink.Database.Storage.{CleanupRun}
use cloudlink.Database.Action.{Db}
use cloudlink.Database.Safe.{Leaves, Leaves-execute, Leaves-last}
use cloudlink.StorageCleanup.{Tally, finish_run, finished_run, has_run_id}

-- The run reports the counts.
pub record Reports (t : Tally) (run : CleanupRun) : Type 0 where
  pub candidates : run.candidate_count ≡ t.candidates
  pub processed : run.processed_count ≡ t.processed
  pub skipped : run.skipped_count ≡ t.skipped
  pub estimated : run.estimated_bytes ≡ t.estimated_bytes
  pub released : run.released_bytes ≡ t.released_bytes

module _ (run_id : String) (now : Time) (t : Tally) where
  finished-Reports : (run : CleanupRun) → Reports t (finished_run now t run)
  finished-Reports run = record {
    candidates = refl;
    processed = refl;
    skipped = refl;
    estimated = refl;
    released = refl;
  }

  abbrev ReportsIf : Option CleanupRun → Type 0
  ReportsIf none = Unit {0}
  ReportsIf (some run) = Reports t run

  found-Reports :
      (runs : List CleanupRun)
      → ReportsIf
          (find (has_run_id run_id) (update_where (has_run_id run_id) (finished_run now t) runs))
  found-Reports [] = tt
  found-Reports (r ∷ runs) = elim (Bool-cases (r.id == run_id)) [
    | inl own ↦ rw (own, own) (finished-Reports r)
    | inr foreign ↦ rw (foreign, foreign) (found-Reports runs)
  ]

  raised-Reports :
      (o : Option CleanupRun) (run : CleanupRun)
      → ReportsIf o
      → or_raise o (value_error run_id) ≡ ok run
      → Reports t run
  raised-Reports none run h e = absurd (cc)
  raised-Reports (some r) run h e = let same : r ≡ run = ground arith in rw same at h

  pub finish_run-Reports :
      (P : Db → Type 0) (db : Db)
      → ((runs : List CleanupRun) → P (record db { cleanup_runs = runs }))
      → Leaves (λ _. Unit {0}) (λ run after. Reports t run × P after) (finish_run run_id now t db)
  unfolding finish_run
  finish_run-Reports P db p = Leaves-execute _ _ _ _ db (
      Leaves-last _ _ _ _ tt λ run e. (raised-Reports _ run (found-Reports db.cleanup_runs) e, p _))

-- ===== src/StorageCleanup/Due.antt =====
-- What a purge selects, apart from the query that selects it.
use cloudlink.Prelude.{ℕ, ◌+◌, ◌*◌, ◌≤◌, Option, none, some, ◌≡◌, string_eq, All, ◌⊎◌}
use cloudlink.Database.Tasks.{
  Time, Task, Status, success, failed, timeout, cancelled, Artifact, ArtifactStatus,
}
use cloudlink.Database.Action.{Db, Settings}

-- The end of a task.
abbrev pub HasEnded : Status → Type 0
HasEnded s = (s ≡ success) ⊎ (s ≡ failed) ⊎ (s ≡ timeout) ⊎ (s ≡ cancelled)

-- The time of an artifact is over: that which it names, or the retention since the end of its task.
abbrev pub IsOver : ℕ → Time → Option Time → Option Time → Type 0
IsOver retention now (some expires_at) finished_at = expires_at ≤ now
IsOver retention now none none = ⊥
IsOver retention now none (some finished_at) = finished_at + 1000000 * retention ≤ now

pub record IsDue (settings : Settings) (now : Time) (db : Db) (a : Artifact) : Type 0 where
  pub task :
      (t : Task) × (t.id ≡ a.task_id)
      × HasEnded t.status
      × IsOver settings.artifact_retention_seconds now a.expires_at t.finished_at
  pub not_purged : ¬ (a.status ≡ ArtifactStatus.purged)
  pub undisturbed : All (λ l. (¬ (l.artifact_id ≡ a.id)) ⊎ (l.expires_at ≤ now)) db.download_leases

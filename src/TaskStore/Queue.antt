-- ===== src/TaskStore/Queue.antt =====
-- The queue itself: reading a task, the limits on texts, expiry of leases and of waiting tasks, and
-- the limit on waiting tasks.
use cloudlink.Prelude.{
  sum_of, codes, if◌then◌else◌, ℕ, ◌+◌, ◌-◌, ◌/◌, Bool, true, false, ◌&&◌, String, List, Option,
  none, some, ◌==◌, string_eq, ltb, leb, find, count_where, update_where, order_by, or_else,
}
use cloudlink.Errors.{
  Result, or_raise, raise_if, task_not_found, payload_too_large, queue_limit_exceeded,
}
use cloudlink.Database.Tasks.{
  Time, seconds, Task, Status, pending, success, failed, timeout, cancelled, Artifact,
}
use cloudlink.Database.Action.{Db, Settings}
use cloudlink.TaskStore.Capacity.{is_running}

abbrev pub is_pending : Status → Bool
is_pending pending = true
is_pending _ = false

-- `status in TERMINAL_STATUSES`
abbrev pub is_terminal : Status → Bool
is_terminal success = true
is_terminal failed = true
is_terminal timeout = true
is_terminal cancelled = true
is_terminal _ = false

abbrev pub has_id : String → Task → Bool
has_id id t = t.id == id

unfoldable pub get_task : Db → String → Result Task
get_task db id = or_raise (find (has_id id) db.tasks) (task_not_found id)

abbrev pub on_tasks : (List Task → List Task) → Db → Db
on_tasks f db = record db { tasks = f db.tasks }

abbrev pub set_task : String → (Task → Task) → Db → Db
set_task id f = on_tasks (update_where (has_id id) f)

-- The bytes of a character in UTF-8.
abbrev utf8_width : ℕ → ℕ
utf8_width c = if ltb c 0x80 then 1 else if ltb c 0x800 then 2 else if ltb c 0x10000 then 3 else 4

-- `len(text.encode("utf-8"))`
abbrev utf8_length : String → ℕ
utf8_length text = sum_of utf8_width (codes text)

unfoldable pub validate_json_size : String → Settings → Result (Unit {0})
validate_json_size encoded settings =
    raise_if (ltb settings.max_json_bytes (utf8_length encoded))
      (payload_too_large "JSON field is too large")

abbrev too_long : ℕ → Option String → Bool
too_long limit none = false
too_long limit (some text) = ltb limit (utf8_length text)

unfoldable pub validate_text_size : Option String → Settings → Result (Unit {0})
validate_text_size value settings =
    raise_if (too_long settings.max_text_bytes value) (payload_too_large "Text field is too large")

abbrev pub is_over : Time → Option Time → Bool
is_over now none = false
is_over now (some until) = leb until now

abbrev pub lease_lost : Time → Task → Bool
lease_lost now t = is_running t.status && is_over now t.locked_until

abbrev pub lose_lease : Time → Task → Task
lose_lease now t = record t {
  status = timeout;
  error_code = some "worker_lost";
  error = some "Worker lease expired; task was not automatically retried";
  updated_at = now;
  finished_at = some now;
  locked_until = none;
  lease_id = none;
}

unfoldable pub expire_locked_tasks : Time → Db → Db
expire_locked_tasks now = on_tasks (update_where (lease_lost now) (lose_lease now))

-- `created_at <= now - queue_timeout_seconds`
abbrev pub waited_too_long : ℕ → Time → Task → Bool
waited_too_long limit now t = is_pending t.status && leb (t.created_at + seconds limit) now

abbrev pub give_up_waiting : Time → Task → Task
give_up_waiting now t = record t {
  status = timeout;
  error_code = some "queue_timeout";
  error = some "Queue timeout before worker claim";
  updated_at = now;
  finished_at = some now;
}

unfoldable pub expire_pending_tasks : Time → ℕ → Db → Db
expire_pending_tasks now limit =
    on_tasks (update_where (waited_too_long limit now) (give_up_waiting now))

abbrev pub is_waiting : Task → Bool
is_waiting t = is_pending t.status

unfoldable pub pending_count : Db → ℕ
pending_count db = count_where is_waiting db.tasks

unfoldable pub check_pending_limit : Db → Settings → Result (Unit {0})
unfolding pending_count
check_pending_limit db settings =
    raise_if (leb settings.max_pending_tasks (pending_count db))
      (queue_limit_exceeded (pending_count db) settings.max_pending_tasks)

-- `max(0, int(age.total_seconds()))`
abbrev pub pending_age_seconds : Task → Time → ℕ
pending_age_seconds t now = (now - t.created_at) / 1000000

-- `ORDER BY created_at ASC`, rows of one moment in the order of their insertion.
abbrev pub oldest_first : List Task → List Task
oldest_first ts = order_by (λ t. t.created_at) ts

-- `COALESCE(expires_at, ?)` on the artifacts of a task.
abbrev expire_at : Time → Time → Artifact → Artifact
expire_at at now a = record a { expires_at = some (or_else a.expires_at at); updated_at = now }

unfoldable pub set_task_artifact_expiry : Settings → String → Time → Db → Db
set_task_artifact_expiry settings task_id terminal_at db = record db {
  artifacts =
      update_where (λ a. a.task_id == task_id)
        (expire_at (terminal_at + seconds settings.artifact_retention_seconds) terminal_at)
        db.artifacts;
}

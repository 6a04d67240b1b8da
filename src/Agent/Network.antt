-- ===== src/Agent/Network.antt =====
-- What may happen to a request of a worker.
use cloudlink.Prelude.{ℕ, Bool, true, List, [], ◌∷◌}
use cloudlink.Errors.{Error, Result, ok, err, http_error}
use cloudlink.Database.Tasks.{Time}
use cloudlink.Database.Action.{Db, Action}

-- A request gets lost on its way, or it reaches the server at a time: then its answer arrives or gets
-- lost. A loss is an exception that is transient or not.
pub data Fate : Type 0 where
  answered : Time → Fate
  answer_lost : Time → Bool → Fate
  request_lost : Bool → Fate

pub data Failure : Type 0 where
  http_failure : ℕ → Failure
  network_failure : Bool → Failure

pub data Response {ℓ} (A : Type ℓ) : Type ℓ where
  reply : A → Response A
  failure : Failure → Response A

-- The server with what will happen to the next requests; when that is used up the network is down.
pub record Net : Type 0 where
  pub fates : List Fate
  pub db : Db

abbrev pub failure_of : Error → Failure
failure_of (http_error code detail) = http_failure code
failure_of _ = http_failure 500

abbrev pub received {ℓ} : {A : Type ℓ} → Result A → Response A
received (ok a) = reply a
received (err e) = failure (failure_of e)

abbrev pub deliver : {A : Type 0} → (Time → Action A) → Fate → List Fate → Db → Response A × Net
deliver call (answered now) rest db =
    (received (call now db).0, record { fates = rest; db = (call now db).1 })
deliver call (answer_lost now transient) rest db =
    (failure (network_failure transient), record { fates = rest; db = (call now db).1 })
deliver call (request_lost transient) rest db =
    (failure (network_failure transient), record { fates = rest; db = db })

abbrev pub send_over : {A : Type 0} → (Time → Action A) → List Fate → Db → Response A × Net
send_over call [] db = (failure (network_failure true), record { fates = []; db = db })
send_over call (fate ∷ rest) db = deliver call fate rest db

unfoldable pub send : {A : Type 0} → (Time → Action A) → Net → Response A × Net
send call net = send_over call net.fates net.db

-- ===== src/Agent/Delivery.antt =====
-- Whatever the network does, an upload that ends well has stored the file, and every upload ends.
use cloudlink.Prelude.{
  String, ◌<◌, ◌≤◌, ℕ, zero, suc, ◌+◌, ◌-◌, ◌*◌, Bool, true, false, List, [], ◌∷◌, Option, none,
  some, ◌==◌, nat_eq, ltb, leb, length, not, ◌||◌, ◌≡◌, refl, arith, ◌⊎◌, inl, inr, ◌≢◌, pos,
  negsuc, ℤ, Bool-cases,
}
use native.Mathlib.Nat.{mul-le-mul_right}
use cloudlink.Errors.{Result, ok, err}
use cloudlink.Database.Tasks.{Time, Artifact}
use cloudlink.Database.Action.{Db, Action}
use cloudlink.Database.Safe.{Leaves, Leaves-state}
use cloudlink.ArtifactStore.{Upload, slice}
use cloudlink.ArtifactStore.Laws.{Receives, Answers, Advances, Completes, Whole}
use cloudlink.Agent.Network.{
  Fate, Response, reply, failure, Net, send, send_over, answered, answer_lost, request_lost,
  received,
}
use cloudlink.Agent.ApiClient.{with_retries, with_retries-keeps, Kept}
use cloudlink.Agent.ArtifactManager.{
  Server, UploadSettings, Outcome, uploaded_all, upload_failed, out_of_rounds, get_status,
  complete_upload, status_says, completed, first_status, after_error, after_put, chunk_from,
  send_chunks, upload_file_chunks, artifact_chunk_bytes,
}

module _ (sha256 : List ℕ → String) (id : String) (content : List ℕ) where
  abbrev pub Fits : Db → Type 0
  Fits = Receives sha256 id content

  -- What an uploader relies on: the requests about a file keep what the server holds of it, and the answers are true.
  pub record IsFaithful (server : Server) : Type 0 where
    pub status_keeps :
        (now : Time) (db : Db)
        → Fits db
        → Leaves Fits (Answers sha256 id content) (server.upload_status now db)
    pub chunk_keeps :
        (now : Time) (offset n : ℕ) (db : Db)
        → Fits db
        → offset < length content
        → 0 < n
        → Leaves Fits
            (Advances sha256 id content offset)
            (server.put_chunk offset (slice offset n content) now db)
    pub complete_keeps :
        (now : Time) (db : Db)
        → Fits db
        → Leaves Fits (Completes sha256 id content) (server.complete now db)

  abbrev pub NetFits : Net → Type 0
  NetFits net = Fits net.db

  module _ {A : Type 0} (Q : A → Db → Type 0) (call : Time → Action A)
      (keeps : (now : Time) (db : Db) → Fits db → Leaves Fits Q (call now db)) where
    send_over-keeps :
        (fates : List Fate) (db : Db)
        → Fits db
        → Kept NetFits (λ a net. Q a net.db) (send_over call fates db)
    unfolding Leaves
    send_over-keeps [] db h = h
    send_over-keeps (answered now ∷ fates) db h = go (call now db) (keeps now db h)
      where
        go :
            (x : Result A × Db)
            → Leaves Fits Q x
            → Kept NetFits (λ a net. Q a net.db) (received x.0, record { fates = fates; db = x.1 })
        go (ok a, after) l = l
        go (err e, after) l = l
    send_over-keeps (answer_lost now transient ∷ fates) db h =
        Leaves-state Fits Q (call now db) (keeps now db h)
    send_over-keeps (request_lost transient ∷ fates) db h = h

    send-keeps : (net : Net) → NetFits net → Kept NetFits (λ a net. Q a net.db) (send call net)
    unfolding send
    send-keeps net h = send_over-keeps net.fates net.db h

  abbrev pub is_out : Outcome → Bool
  is_out out_of_rounds = true
  is_out _ = false

  -- The server fits the file, and an upload that ended well has stored it.
  unfoldable pub Delivered : Outcome × Net → Type 0
  Delivered (uploaded_all, net) = Fits net.db × Whole sha256 id content net.db
  Delivered (upload_failed, net) = Fits net.db
  Delivered (out_of_rounds, net) = Fits net.db

  abbrev StatusKept : Response Upload × Net → Type 0
  StatusKept = Kept NetFits (λ u net. Answers sha256 id content u net.db)

  module _ (server : Server) (settings : UploadSettings) (faithful : IsFaithful server) where
    status-Kept : (net : Net) → NetFits net → StatusKept (get_status server settings net)
    unfolding get_status
    status-Kept net h =
        with_retries-keeps _ NetFits (λ u net. Answers sha256 id content u net.db)
          (send-keeps _ server.upload_status faithful.status_keeps) settings.default_retries net h

    complete-Kept :
        (net : Net)
        → NetFits net
        → Kept NetFits
            (λ a net. Completes sha256 id content a net.db)
            (with_retries (send server.complete) settings.upload_retries net)
    complete-Kept net h =
        with_retries-keeps _ NetFits (λ a net. Completes sha256 id content a net.db)
          (send-keeps _ server.complete faithful.complete_keeps) settings.upload_retries net h

    abbrev pub tries : ℕ
    tries = settings.upload_retries + 1

    -- The rounds that are enough from an offset and a number of attempts on.
    unfoldable Enough : ℕ → ℕ → ℕ → Type 0
    Enough rounds offset attempt =
        ((length content - offset) * tries < rounds + attempt)
        × (attempt < tries)
        × (attempt ≤ (length content - offset) * tries)

    -- What ends an upload: `Delivered`, and it has ended.
    unfoldable Ended : Outcome × Net → Type 0
    Ended x = Delivered x × (is_out x.0 ≡ false)

    status_says-Ended :
        (x : Response Upload × Net) → StatusKept x → Ended (status_says server settings x)
    unfolding Ended Delivered Answers
    status_says-Ended (failure f, net) h = (h, refl)
    status_says-Ended (reply u, net) h = ground (arith, arith)

    completed-Ended :
        (x : Response Artifact × Net)
        → Kept NetFits (λ a net. Completes sha256 id content a net.db) x
        → Ended (completed server settings x)
    unfolding Completes Ended Delivered
    completed-Ended (failure f, net) h =
        status_says-Ended (get_status server settings net) (status-Kept net h)
    completed-Ended (reply a, net) h = rw (completed, h.1.0) ((h.0, h.1.1), refl)

    complete_upload-Ended : (net : Net) → NetFits net → Ended (complete_upload server settings net)
    unfolding complete_upload
    complete_upload-Ended net h = completed-Ended _ (complete-Kept net h)

    -- The same, of an upload whose rounds may run out.
    unfoldable pub EndsIf : Type 0 → Outcome × Net → Type 0
    EndsIf enough x = Delivered x × (enough → is_out x.0 ≡ false)

    Ended-EndsIf : (enough : Type 0) (x : Outcome × Net) → Ended x → EndsIf enough x
    unfolding Ended EndsIf
    Ended-EndsIf enough x e = (e.0, λ _. e.1)

    Enough-advances :
        (rounds offset attempt further : ℕ)
        → offset < length content
        → offset < further
        → Enough (suc rounds) offset attempt
        → Enough rounds further 0
    unfolding Enough
    Enough-advances rounds offset attempt further short ahead e =
        let fewer : (length content - further + 1) * tries ≤ (length content - offset) * tries =
          mul-le-mul_right tries (omega arith) in
        (omega arith, omega arith, omega arith)

    Enough-retries :
        (rounds offset attempt : ℕ)
        → offset < length content
        → attempt + 1 < tries
        → Enough (suc rounds) offset attempt
        → Enough rounds offset (attempt + 1)
    unfolding Enough
    Enough-retries rounds offset attempt short again e =
        let some_left : 1 * tries ≤ (length content - offset) * tries =
          mul-le-mul_right tries (omega arith) in
        (omega arith, omega arith, omega arith)

    module _ (rounds offset attempt : ℕ) (next : ℕ → ℕ → Net → Outcome × Net)
        (ends : (o a : ℕ) (net : Net) → NetFits net → EndsIf (Enough rounds o a) (next o a net))
        (short : offset < length content) where
      later :
          (further : ℕ) (net : Net)
          → NetFits net
          → offset < further
          → EndsIf (Enough (suc rounds) offset attempt) (next further 0 net)
      unfolding EndsIf
      later further net h ahead =
          let e = ends further 0 net h in
          (e.0, λ enough. e.1 (Enough-advances rounds offset attempt further short ahead enough))

      again :
          (net : Net)
          → NetFits net
          → attempt + 1 < tries
          → EndsIf (Enough (suc rounds) offset attempt) (next offset (attempt + 1) net)
      unfolding EndsIf
      again net h few =
          let e = ends offset (attempt + 1) net h in
          (e.0, λ enough. e.1 (Enough-retries rounds offset attempt short few enough))

      after_error-EndsIf :
          (x : Response Upload × Net)
          → StatusKept x
          → EndsIf
              (Enough (suc rounds) offset attempt)
              (after_error server settings next offset (attempt + 1) x)
      unfolding Answers EndsIf Delivered
      after_error-EndsIf (failure g, net) h = (h, λ _. refl)
      after_error-EndsIf (reply u, net) (h, inl whole) =
          rw (after_error, whole.0) ((h, whole.1), λ _. refl)
      after_error-EndsIf (reply u, net) (h, inr open_) =
          elim (Bool-cases (ltb offset u.uploaded_bytes)) [
            | inl ahead ↦
                rw (after_error, open_, ahead) (later u.uploaded_bytes net h (ground arith))
            | inr behind ↦ elim (Bool-cases (leb (settings.upload_retries + 1) (attempt + 1))) [
              | inl spent ↦ rw (after_error, open_, behind, spent) (h, λ _. refl)
              | inr left ↦ rw (after_error, open_, behind, left) (again net h (ground arith))
            ]
          ]

      after_put-EndsIf :
          (x : Response Upload × Net)
          → Kept NetFits (λ u net. Advances sha256 id content offset u net.db) x
          → EndsIf
              (Enough (suc rounds) offset attempt)
              (after_put server settings next offset (attempt + 1) x)
      unfolding Advances EndsIf Delivered
      after_put-EndsIf (failure f, net) h =
          after_error-EndsIf (get_status server settings net) (status-Kept net h)
      after_put-EndsIf (reply u, net) (h, inl whole) =
          rw (after_put, whole.0) ((h, whole.1), λ _. refl)
      after_put-EndsIf (reply u, net) (h, inr open_) =
          rw (after_put, open_.0) (later u.uploaded_bytes net h open_.1)

    chunk_positive : 0 < artifact_chunk_bytes settings.configured_chunk_bytes
    unfolding artifact_chunk_bytes
    chunk_positive = positive settings.configured_chunk_bytes
      where
        positive : (n : Option ℤ) → 0 < artifact_chunk_bytes n
        positive none = omega arith
        positive (some (pos n)) = omega arith
        positive (some (negsuc n)) = omega arith

    send_chunks-EndsIf :
        (rounds offset attempt : ℕ) (net : Net)
        → NetFits net
        → EndsIf
            (Enough rounds offset attempt)
            (send_chunks server settings rounds content offset attempt net)
    unfolding send_chunks EndsIf Delivered Enough
    send_chunks-EndsIf zero offset attempt net h = (h, λ enough. absurd (omega arith))
    send_chunks-EndsIf (suc rounds) offset attempt net h =
        elim (Bool-cases (
          not (ltb offset (length content))
          || length (chunk_from server settings offset content) == 0)) [
            | inl over ↦
                rw (send_chunks, over)
                  (Ended-EndsIf (Enough (suc rounds) offset attempt) _
                    (complete_upload-Ended net h))
            | inr more ↦
                let short : offset < length content = ground arith in
                rw (send_chunks, more)
                  (after_put-EndsIf rounds offset attempt
                    (λ o a n. send_chunks server settings rounds content o a n)
                    (λ o a n k. send_chunks-EndsIf rounds o a n k) short _
                    (send-keeps (Advances sha256 id content offset) _
                      (λ now db k.
                        faithful.chunk_keeps now offset _ db k short
                          (omega (arith, chunk_positive)))
                      net h))
          ]

    first_status-EndsIf :
        (rounds : ℕ) (x : Response Upload × Net)
        → StatusKept x
        → EndsIf (length content * tries < rounds) (first_status server settings rounds content x)
    unfolding EndsIf Delivered Answers Enough
    first_status-EndsIf rounds (failure f, net) h = (h, λ _. refl)
    first_status-EndsIf rounds (reply u, net) (h, inl whole) =
        rw (first_status, whole.0) ((h, whole.1), λ _. refl)
    first_status-EndsIf rounds (reply u, net) (h, inr open_) =
        let e = send_chunks-EndsIf rounds u.uploaded_bytes 0 net h in
        let fewer : (length content - u.uploaded_bytes) * tries ≤ length content * tries =
          mul-le-mul_right tries (omega arith) in
        rw (first_status, open_) (e.0, λ enough. e.1 (omega arith, omega arith, omega arith))

    pub upload-EndsIf :
        (rounds : ℕ) (net : Net)
        → NetFits net
        → EndsIf
            (length content * tries < rounds)
            (upload_file_chunks server settings rounds content net)
    unfolding upload_file_chunks
    upload-EndsIf rounds net h =
        first_status-EndsIf rounds (get_status server settings net) (status-Kept net h)

    -- The server stays true to the file, and an upload that ends well has stored it.
    pub upload_delivers :
        (rounds : ℕ) (net : Net)
        → Fits net.db
        → Fits (upload_file_chunks server settings rounds content net).1.db
          × (Whole sha256 id content (upload_file_chunks server settings rounds content net).1.db
              ⊎ ((upload_file_chunks server settings rounds content net).0 ≢ uploaded_all))
    unfolding EndsIf Delivered
    upload_delivers rounds net h = delivered _ (upload-EndsIf rounds net h).0
      where
        delivered :
            (x : Outcome × Net)
            → Delivered x
            → Fits x.1.db × (Whole sha256 id content x.1.db ⊎ (x.0 ≢ uploaded_all))
        delivered (uploaded_all, net) d = (d.0, inl d.1)
        delivered (upload_failed, net) d = (d, inr (λ e. absurd (cc)))
        delivered (out_of_rounds, net) d = (d, inr (λ e. absurd (cc)))

    pub upload_ends :
        (rounds : ℕ) (net : Net)
        → Fits net.db
        → length content * (settings.upload_retries + 1) < rounds
        → (upload_file_chunks server settings rounds content net).0 ≢ out_of_rounds
    unfolding EndsIf
    upload_ends rounds net h enough = ended _ ((upload-EndsIf rounds net h).1 enough)
      where
        ended : (o : Outcome) → is_out o ≡ false → o ≢ out_of_rounds
        ended uploaded_all h e = absurd (cc)
        ended upload_failed h e = absurd (cc)
        ended out_of_rounds h e = absurd (cc)

-- ===== src/Agent/ApiClient.antt =====
-- worker/api_client.py: requests that are sent again after transient errors.
use cloudlink.Prelude.{
  ℕ, zero, suc, Bool, true, false, [], ◌∷◌, contains, nat_eq, Bool-cases, inl, inr,
}
use cloudlink.Agent.Network.{Failure, http_failure, network_failure, Response, reply, failure}

unfoldable pub is_transient_error : Failure → Bool
is_transient_error (http_failure code) = contains code (429 ∷ 500 ∷ 502 ∷ 503 ∷ 504 ∷ [])
is_transient_error (network_failure transient) = transient

-- What is kept, with what is true of a reply.
abbrev pub Kept : {S A : Type 0} → (S → Type 0) → (A → S → Type 0) → Response A × S → Type 0
Kept P Q (reply a, s) = P s × Q a s
Kept P Q (failure f, s) = P s

module _ {S A : Type 0} (operation : S → Response A × S) where
  -- `_with_retries`, with `retries` attempts left after this one.
  unfoldable pub with_retries : ℕ → S → Response A × S
  with_retries zero s = operation s
  with_retries (suc retries) s =
      let attempt = operation s in
      elim attempt.0 [
        | reply a ↦ (reply a, attempt.1)
        | failure f ↦ elim (is_transient_error f) [
          | true ↦ with_retries retries attempt.1
          | false ↦ (failure f, attempt.1)
        ]
      ]

  -- What the operation keeps, and what it answers, the attempts keep and answer.
  pub with_retries-keeps :
      (P : S → Type 0) (Q : A → S → Type 0)
      → ((s : S) → P s → Kept P Q (operation s))
      → (retries : ℕ) (s : S) → P s
      → Kept P Q (with_retries retries s)
  unfolding with_retries
  with_retries-keeps P Q keeps zero s p = keeps s p
  with_retries-keeps P Q keeps (suc retries) s p =
      go (operation s) (λ t k. with_retries-keeps P Q keeps retries t k) (keeps s p)
    where
      go :
          (x : Response A × S)
          → ((t : S) → P t → Kept P Q (with_retries retries t))
          → Kept P Q x
          → Kept P Q (elim x.0 [
            | reply a ↦ (reply a, x.1)
            | failure f ↦ elim (is_transient_error f) [
              | true ↦ with_retries retries x.1
              | false ↦ (failure f, x.1)
            ]
          ])
      go (reply a, t) next k = k
      go (failure f, t) next k = elim (Bool-cases (is_transient_error f)) [
        | inl again ↦ rw again (next t k)
        | inr final ↦ rw final k
      ]

-- ===== src/Training/Batches.antt =====
-- What the batches hold.
use mathlib.Core.List.{append_assoc}
use fraud_ml_platform.Shared.{
  ℕ, ◌+◌, ◌%◌, ◌≤◌, ◌≡◌, refl, ap, ◌∙◌, inl, inr, List, [], ◌∷◌, ◌++◌, arith, ◌==◌, Bool-cases,
  length, All, length-append,
}
use fraud_ml_platform.Training.Loader.{send, batch_size, load_features, concat}

module _ {A : Type 0} where
  -- The pipeline holds the commands since the last full batch.
  send-concat :
      (total : ℕ) (pipe commands : List A)
      → length pipe ≡ total % batch_size
      → concat (send total pipe commands) ≡ pipe ++ commands
  unfolding send
  send-concat total [] [] h = elim (Bool-cases (total % batch_size == 0)) [
    | inl e ↦ rw e refl
    | inr e ↦ absurd (ground (arith, h, e))
  ]
  send-concat total (x ∷ pipe) [] h = elim (Bool-cases (total % batch_size == 0)) [
    | inl e ↦ absurd (ground (arith, h, e))
    | inr e ↦ rw e refl
  ]
  send-concat total pipe (c ∷ commands) h =
      let grown = length-append pipe (c ∷ []) in
      elim (Bool-cases ((total + 1) % batch_size == 0)) [
        | inl e ↦ rw e (
            ap (λ l. (pipe ++ c ∷ []) ++ l)
              (send-concat (total + 1) [] commands (ground (arith, e)))
            ∙ append_assoc pipe (c ∷ []) commands)
        | inr e ↦ rw e (
            send-concat (total + 1) (pipe ++ c ∷ []) commands (ground (arith, h, grown, e))
            ∙ append_assoc pipe (c ∷ []) commands)
      ]

  abbrev pub IsBatch : List A → Type 0
  IsBatch batch = (1 ≤ length batch) × (length batch ≤ batch_size)

  send-IsBatch :
      (total : ℕ) (pipe commands : List A)
      → length pipe ≡ total % batch_size
      → All IsBatch (send total pipe commands)
  unfolding send
  send-IsBatch total pipe [] h = elim (Bool-cases (total % batch_size == 0)) [
    | inl e ↦ rw e tt
    | inr e ↦ rw e ((ground (arith, h, e), ground (arith, h, e)), tt)
  ]
  send-IsBatch total pipe (c ∷ commands) h =
      let grown = length-append pipe (c ∷ []) in
      elim (Bool-cases ((total + 1) % batch_size == 0)) [
        | inl e ↦ rw e (
          (omega (arith, grown), omega (arith, grown, h)),
          send-IsBatch (total + 1) [] commands (ground (arith, e)),
        )
        | inr e ↦
            rw e (send-IsBatch (total + 1) (pipe ++ c ∷ []) commands (ground (arith, h, grown, e)))
      ]

  -- The batches are together the commands, each once and in their order, and each batch has from 1
  -- to 1000 of them.
  pub load_features-batches :
      (commands : List A)
      → (concat (load_features commands) ≡ commands) × All IsBatch (load_features commands)
  unfolding load_features
  load_features-batches commands = (send-concat 0 [] commands refl, send-IsBatch 0 [] commands refl)

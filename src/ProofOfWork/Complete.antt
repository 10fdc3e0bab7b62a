-- ===== src/ProofOfWork/Complete.antt =====
-- app/proof_of_work.py: what a complete proof says of the artifacts.
use dev_bot.Base.{String, ◌≡◌, inl, inr, true, List, [], ◌∷◌, Bool-cases}
use dev_bot.Base.Eq.{string_eq}
use dev_bot.Base.Lists.{All}
use dev_bot.Base.Sets.{contains}
use dev_bot.ProofOfWork.{
  Workflow, required_artifacts, missing_from, is_nothing, evaluate_proof_of_work,
}

nothing_missing :
    (available items : List String)
    → is_nothing (missing_from available items) ≡ true
    → All (λ item. contains available item ≡ true) items
unfolding missing_from
nothing_missing available [] h = tt
nothing_missing available (item ∷ items) h = elim (Bool-cases (contains available item)) [
  | inl there ↦ (there, nothing_missing available items (rw there at h))
  | inr gone ↦ absurd (cc (rw gone at h))
]

-- Where the proof is complete, each artifact that the workflow requires is available.
pub all_available :
    (workflow : Workflow) (available : List String)
    → (evaluate_proof_of_work workflow available).complete ≡ true
    → All (λ item. contains available item ≡ true) (required_artifacts workflow)
unfolding evaluate_proof_of_work
all_available workflow available h = nothing_missing available (required_artifacts workflow) h

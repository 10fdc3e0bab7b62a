-- ===== src/ProofOfWork/Tests.antt =====
-- A workflow whose proof section asks for two artifacts, of which one is there.
use dev_bot.Base.{◌≡◌, refl, [], ◌∷◌}
use dev_bot.Base.Eq.{string_eq}
use dev_bot.Base.Sets.{contains}
use dev_bot.Base.Items.{nonblank}
use dev_bot.Base.Text.{strip, strip_left, strip_right, is_space}
use dev_bot.ProofOfWork.{
  Workflow, no_list, listed, dict, missing_from, required_artifacts, evaluate_proof_of_work,
}

abbrev workflow : Workflow
workflow = record {
  verification = dict no_list;
  proof_of_work = dict (listed ("plan.json" ∷ " " ∷ "verification.json" ∷ []));
}

one_missing :
    (evaluate_proof_of_work workflow ("plan.json" ∷ [])).missing_artifacts
    ≡ "verification.json" ∷ []
unfolding evaluate_proof_of_work required_artifacts missing_from nonblank contains strip strip_left
    strip_right is_space
one_missing = refl

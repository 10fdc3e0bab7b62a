-- ===== src/ProofOfWork.antt =====
-- app/proof_of_work.py: the artifacts that a workflow requires, and whether they are there.
pub mod Complete
mod Tests
use dev_bot.Base.{String, Bool, true, false, not, ◌||◌, List, [], ◌∷◌, if◌then◌else◌}
use dev_bot.Base.Eq.{string_eq}
use dev_bot.Base.Sets.{contains}
use dev_bot.Base.Items.{nonblank}

-- What a section of the workflow has under `required_artifacts`: a list, whose items are given as their
-- texts, or anything else. A missing key counts as an empty list.
pub data Items : Type 0 where
  no_list : Items
  listed : List String → Items

-- A section of the workflow; a missing one counts as an empty dict.
pub data Section : Type 0 where
  no_dict : Section
  dict : Items → Section

pub record Workflow : Type 0 where
  pub verification : Section
  pub proof_of_work : Section

pub record ProofCheckResult : Type 0 where
  pub complete : Bool
  pub missing_artifacts : List String

abbrev pub listed_items : Section → List String
listed_items no_dict = []
listed_items (dict no_list) = []
listed_items (dict (listed items)) = nonblank items

abbrev pub or_items : List String → List String → List String
or_items [] other = other
or_items (s ∷ ss) other = s ∷ ss

unfoldable pub required_artifacts : Workflow → List String
required_artifacts workflow =
    or_items (listed_items workflow.verification) (listed_items workflow.proof_of_work)

unfoldable pub missing_from : List String → List String → List String
missing_from available [] = []
missing_from available (item ∷ items) =
    let rest = missing_from available items in if contains available item then rest else item ∷ rest

abbrev pub is_nothing : List String → Bool
is_nothing [] = true
is_nothing (s ∷ ss) = false

unfoldable pub evaluate_proof_of_work : Workflow → List String → ProofCheckResult
evaluate_proof_of_work workflow available =
    let missing = missing_from available (required_artifacts workflow) in
    record { complete = is_nothing missing; missing_artifacts = missing }

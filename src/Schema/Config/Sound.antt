-- ===== src/Schema/Config/Sound.antt =====
-- app/contracts/workflow_schema.py: what every configuration that is accepted satisfies, and that a refusal has a
-- message.
use dev_bot.Base.{refl}
use dev_bot.Base.Result.{ok, err}
use dev_bot.Base.Text.{strip}
use dev_bot.Schema.Yaml.{YamlValue, Conversions}
use dev_bot.Schema.Require.{Checked}
use dev_bot.Schema.Config.{
  TelemetryConfig, WorkflowConfig, evals_from_dict, telemetry_from_dict, incident_bundle_from_dict,
  workflow_from_dict,
}
use dev_bot.Schema.Codex.{CodexConfig, codex_from_dict, compaction_policy_from_dict}
use dev_bot.Schema.Planning.Sound.{SoundPlanning, NonNegative, Ensures-planning, Ensures-replanning}
use dev_bot.Schema.Implementation.Sound.{
  SoundImplementation, SoundProtected, Ensures-implementation, Ensures-protected_config,
}
use dev_bot.Schema.Checks.Sound.{SoundVerification, Ensures-review, Ensures-verification}
use dev_bot.Schema.Ensures.{
  Ensures, returns, raises, Described, Anything, OrNone, Ensures-bind, Ensures-require_mapping,
  Ensures-int_field, Ensures-strings_field, Ensures-mapping_field, Ensures-section_or,
  Ensures-section_of, IsTrimmed, text_or-IsTrimmed, constant,
}

pub record SoundCodex (c : CodexConfig) : Type 0 where
  pub command : IsTrimmed c.command
  pub model : IsTrimmed c.model
  pub reasoning_effort : IsTrimmed c.reasoning_effort
  pub summary : IsTrimmed c.summary
  pub approval_policy : IsTrimmed c.approval_policy
  pub thread_sandbox : IsTrimmed c.thread_sandbox
  pub service_name : IsTrimmed c.service_name

pub record IsSound (c : WorkflowConfig) : Type 0 where
  pub planning : OrNone SoundPlanning c.planning
  pub codex : OrNone SoundCodex c.codex
  pub implementation : OrNone SoundImplementation c.implementation
  pub replanning : OrNone (λ r. NonNegative r.max_replans_per_issue) c.replanning
  pub protected_config : OrNone SoundProtected c.protected_config
  pub review : OrNone (λ r. IsTrimmed r.rules_file) c.review
  pub verification : OrNone SoundVerification c.verification
  pub telemetry : OrNone (λ t. IsTrimmed t.sink) c.telemetry

Ensures-compaction : (v : YamlValue) → Ensures Anything (compaction_policy_from_dict v)
unfolding compaction_policy_from_dict
Ensures-compaction v = Ensures-bind _ _ (Ensures-require_mapping v _) λ fields _.
    Ensures-bind _ _ (Ensures-int_field fields _ _) λ a _.
      Ensures-bind _ _ (Ensures-int_field fields _ _)
        λ b _. Ensures-bind _ _ (Ensures-int_field fields _ _) λ c _. returns tt

Ensures-codex : (py : Conversions) (v : YamlValue) → Ensures SoundCodex (codex_from_dict py v)
unfolding codex_from_dict strip
Ensures-codex py v = Ensures-bind _ _ (Ensures-require_mapping v _) λ fields _.
    Ensures-bind _ _ (Ensures-strings_field fields _ _ _) λ roots _.
      Ensures-bind _ _ (Ensures-int_field fields _ _) λ a _.
        Ensures-bind _ _ (Ensures-int_field fields _ _) λ b _.
          Ensures-bind _ _ (Ensures-section_or fields _ _ _ tt Ensures-compaction) λ c _.
            returns (record {
              command =
                  text_or-IsTrimmed py fields "command" "codex app-server" (constant _ refl refl);
              model = text_or-IsTrimmed py fields "model" "gpt-5.4" (constant _ refl refl);
              reasoning_effort =
                  text_or-IsTrimmed py fields "reasoning_effort" "medium" (constant _ refl refl);
              summary = text_or-IsTrimmed py fields "summary" "concise" (constant _ refl refl);
              approval_policy =
                  text_or-IsTrimmed py fields "approval_policy" "never" (constant _ refl refl);
              thread_sandbox =
                  text_or-IsTrimmed py fields "thread_sandbox" "workspace-write"
                    (constant _ refl refl);
              service_name =
                  text_or-IsTrimmed py fields "service_name" "dev-bot" (constant _ refl refl);
            })

Ensures-evals : (py : Conversions) (v : YamlValue) → Ensures Anything (evals_from_dict py v)
unfolding evals_from_dict
Ensures-evals py v =
    Ensures-bind _ _ (Ensures-require_mapping v _)
      λ fields _. Ensures-bind _ _ (Ensures-mapping_field fields _ _) λ raw _. returns tt

Ensures-telemetry :
    (py : Conversions) (v : YamlValue)
    → Ensures (λ (t : TelemetryConfig). IsTrimmed t.sink) (telemetry_from_dict py v)
unfolding telemetry_from_dict strip
Ensures-telemetry py v =
    Ensures-bind _ _ (Ensures-require_mapping v _)
      λ fields _. returns (text_or-IsTrimmed py fields "sink" "jsonl" (constant _ refl refl))

Ensures-incident_bundle : (v : YamlValue) → Ensures Anything (incident_bundle_from_dict v)
unfolding incident_bundle_from_dict
Ensures-incident_bundle v = Ensures-bind _ _ (Ensures-require_mapping v _) λ fields _. returns tt

pub Ensures-workflow :
    (py : Conversions) (v : YamlValue) → Ensures IsSound (workflow_from_dict py v)
unfolding workflow_from_dict
Ensures-workflow py v = Ensures-bind _ _ (Ensures-require_mapping v _) λ fs _.
    Ensures-bind _ _ (Ensures-section_of fs _ _ (Ensures-planning py)) λ c1 p1.
      Ensures-bind _ _ (Ensures-section_of fs _ _ (Ensures-codex py)) λ c2 p2.
        Ensures-bind _ _ (Ensures-section_of fs _ _ (Ensures-implementation py)) λ c3 p3.
          Ensures-bind _ _ (Ensures-section_of fs _ _ Ensures-replanning) λ c4 p4.
            Ensures-bind _ _ (Ensures-section_of fs _ _ (Ensures-protected_config py)) λ c5 p5.
              Ensures-bind _ _ (Ensures-section_of fs _ _ (Ensures-review py)) λ c6 p6.
                Ensures-bind _ _ (Ensures-section_of fs _ _ (Ensures-verification py)) λ c7 p7.
                  Ensures-bind _ _ (Ensures-section_of _ _ _ Ensures-incident_bundle) λ c8 _.
                    Ensures-bind _ _ (Ensures-section_of fs _ _ (Ensures-evals py)) λ c9 _.
                      Ensures-bind _ _ (Ensures-section_of fs _ _ (Ensures-telemetry py)) λ c0 p0.
                        returns (record {
                          planning = p1;
                          codex = p2;
                          implementation = p3;
                          replanning = p4;
                          protected_config = p5;
                          review = p6;
                          verification = p7;
                          telemetry = p0;
                        })

-- What an outcome of the schema means.
abbrev pub Meets : Checked WorkflowConfig → Type 0
Meets (ok c) = IsSound c
Meets (err why) = Described why

Meets-of_Ensures : {r : Checked WorkflowConfig} → Ensures IsSound r → Meets r
Meets-of_Ensures (returns p) = p
Meets-of_Ensures (raises d) = d

-- Whatever the front matter holds, a configuration that is accepted satisfies the bounds of its sections: texts
-- that must be there are filled and trimmed, the committee has a role, at most two editors run, the number of
-- replans is not negative, and verification has the required artifacts and only checks with a name and a command.
-- A refusal by the schema has a message.
pub workflow_from_dict-Meets : (py : Conversions) (v : YamlValue) → Meets (workflow_from_dict py v)
workflow_from_dict-Meets py v = Meets-of_Ensures (Ensures-workflow py v)

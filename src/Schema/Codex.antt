-- ===== src/Schema/Codex.antt =====
-- app/contracts/workflow_schema.py: the section on the Codex runner.
use dev_bot.Base.{String, Bool, true, false, List, []}
use dev_bot.Base.Result.{ok, ◌>>=◌}
use dev_bot.Base.Ints.{ℤ, pos}
use dev_bot.Schema.Yaml.{YamlValue, Conversions}
use dev_bot.Schema.Require.{
  Checked, require_mapping, text_or, flag, int_field, strings_field, section_or,
}

pub record CompactionPolicyConfig : Type 0 where
  pub turn_count_gte : ℤ
  pub steer_count_gte : ℤ
  pub repair_cycles_gte : ℤ

pub record CodexConfig : Type 0 where
  pub command : String
  pub model : String
  pub reasoning_effort : String
  pub summary : String
  pub approval_policy : String
  pub thread_sandbox : String
  pub writable_roots : List String
  pub network_access : Bool
  pub turn_timeout_ms : ℤ
  pub read_timeout_ms : ℤ
  pub allow_turn_steer : Bool
  pub allow_thread_resume_same_run_only : Bool
  pub compaction_policy : CompactionPolicyConfig
  pub service_name : String

abbrev pub default_compaction : CompactionPolicyConfig
default_compaction = record {
  turn_count_gte = pos 12;
  steer_count_gte = pos 2;
  repair_cycles_gte = pos 3;
}

unfoldable pub compaction_policy_from_dict : YamlValue → Checked CompactionPolicyConfig
compaction_policy_from_dict payload = do
  fields ← require_mapping payload "codex.compaction_policy"
  turns ← int_field fields "turn_count_gte" (pos 12)
  steers ← int_field fields "steer_count_gte" (pos 2)
  repairs ← int_field fields "repair_cycles_gte" (pos 3)
  ok (record { turn_count_gte = turns; steer_count_gte = steers; repair_cycles_gte = repairs })

unfoldable pub codex_from_dict : Conversions → YamlValue → Checked CodexConfig
codex_from_dict py payload = do
  fields ← require_mapping payload "codex"
  writable_roots ← strings_field fields "writable_roots" [] "codex.writable_roots"
  turn_timeout ← int_field fields "turn_timeout_ms" (pos 3600000)
  read_timeout ← int_field fields "read_timeout_ms" (pos 5000)
  compaction ← section_or fields "compaction_policy" compaction_policy_from_dict default_compaction
  ok (record {
    command = text_or py fields "command" "codex app-server";
    model = text_or py fields "model" "gpt-5.4";
    reasoning_effort = text_or py fields "reasoning_effort" "medium";
    summary = text_or py fields "summary" "concise";
    approval_policy = text_or py fields "approval_policy" "never";
    thread_sandbox = text_or py fields "thread_sandbox" "workspace-write";
    writable_roots = writable_roots;
    network_access = flag fields "network_access" false;
    turn_timeout_ms = turn_timeout;
    read_timeout_ms = read_timeout;
    allow_turn_steer = flag fields "allow_turn_steer" false;
    allow_thread_resume_same_run_only = flag fields "allow_thread_resume_same_run_only" true;
    compaction_policy = compaction;
    service_name = text_or py fields "service_name" "dev-bot";
  })

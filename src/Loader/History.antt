-- ===== src/Loader/History.antt =====
-- app/workflow_loader.py: what the cache and the callers have over a sequence of loads.
use dev_bot.Base.{
  ◌≡◌, refl, sym, ap, subst, ◌∙◌, ◌⊎◌, inl, inr, String, Bool, true, false, Option, none, some,
  List, [], ◌∷◌, Bool-cases,
}
use dev_bot.Base.Eq.{string_eq, ◌==◌}
use dev_bot.Base.Dict.{get}
use dev_bot.Base.Lists.{All}
use dev_bot.Base.Result.{Result, ok, err}
use dev_bot.Schema.Yaml.{YamlValue, mapping, Conversions}
use dev_bot.Schema.Require.{Checked, workflow_validation_error, conversion_error}
use dev_bot.Schema.Config.{WorkflowConfig}
use dev_bot.Schema.Config.Sound.{IsSound, Meets, workflow_from_dict-Meets}
use dev_bot.Schema.Ensures.{OrNone}
use dev_bot.Loader.{
  Cache, LoadError, load_workflow_definition, front_matter, starts_front_matter, or_empty_mapping,
}
use dev_bot.Loader.Refines.{
  WorkflowFile, absent, plain, good, faulty, failing, read_schema, read_value, read_front, document,
  known_after, outcome, config_of, known, given, load_workflow_definition-Implements,
}

-- A call of load_workflow_definition, with what is read at its path.
pub record Load : Type 0 where
  pub path : String
  pub content : Option String
  pub strict : Bool

abbrev pub IsFaulty : WorkflowFile → Type 0
IsFaulty absent = ⊥
IsFaulty plain = ⊥
IsFaulty (good c) = ⊥
IsFaulty (faulty why) = Unit
IsFaulty (failing why) = Unit

abbrev pub FileSound : WorkflowFile → Type 0
FileSound absent = Unit
FileSound plain = Unit
FileSound (good c) = IsSound c
FileSound (faulty why) = Unit
FileSound (failing why) = Unit

read_schema-Sound : (r : Checked WorkflowConfig) → Meets r → FileSound (read_schema r)
read_schema-Sound (ok c) h = h
read_schema-Sound (err (workflow_validation_error message)) h = tt
read_schema-Sound (err conversion_error) h = tt

module _ (py : Conversions) (safe_load : String → Option YamlValue) where
  read_value-Sound : (v : Option YamlValue) → FileSound (read_value py v)
  read_value-Sound none = tt
  read_value-Sound (some (mapping fields)) =
      read_schema-Sound _ (workflow_from_dict-Meets py (mapping fields))
  read_value-Sound (some v) = tt

  read_front-Sound : (parts : Option (String × String)) → FileSound (read_front py safe_load parts)
  read_front-Sound none = tt
  read_front-Sound (some parts) = read_value-Sound (or_empty_mapping (safe_load parts.0))

  document-Sound : (content : Option String) → FileSound (document py safe_load content)
  unfolding document
  document-Sound none = tt
  document-Sound (some s) = elim (Bool-cases (starts_front_matter s)) [
    | inl front ↦ rw front (read_front-Sound (front_matter s))
    | inr whole ↦ rw whole tt
  ]

  -- The cache after one load.
  abbrev pub after_load : Cache → Load → Cache
  after_load cache l = (load_workflow_definition py safe_load cache l.path l.content l.strict).0

  -- The cache after a sequence of loads, the first one first.
  pub loads : Cache → List Load → Cache
  loads cache [] = cache
  loads cache (l ∷ ls) = loads (after_load cache l) ls

  known_after-Sound :
      (d : WorkflowFile) (k : Option WorkflowConfig)
      → FileSound d
      → OrNone IsSound k
      → OrNone IsSound (known_after d k)
  known_after-Sound absent k h s = tt
  known_after-Sound plain k h s = tt
  known_after-Sound (good c) k h s = h
  known_after-Sound (faulty why) k h s = s
  known_after-Sound (failing why) k h s = s

  abbrev CacheSound : Cache → Type 0
  CacheSound cache = (path : String) → OrNone IsSound (known cache path)

  load-Sound : (cache : Cache) (l : Load) → CacheSound cache → CacheSound (after_load cache l)
  load-Sound cache l h path =
      let done = load_workflow_definition-Implements py safe_load cache l.path l.content l.strict in
      elim (Bool-cases (l.path == path)) [
        | inl same ↦
            let e = (string_eq.equal_iff l.path path).0 same in
            subst (λ p. OrNone IsSound (known (after_load cache l) p)) e
              (subst (OrNone IsSound) (sym done.path_known)
                (known_after-Sound _ _ (document-Sound l.content) (h l.path)))
        | inr other ↦
            subst (λ d. OrNone IsSound (config_of d)) (sym (done.others path other)) (h path)
      ]

  loads-Sound : (cache : Cache) (ls : List Load) → CacheSound cache → CacheSound (loads cache ls)
  unfolding loads
  loads-Sound cache [] h = h
  loads-Sound cache (l ∷ ls) h = loads-Sound (after_load cache l) ls (load-Sound cache l h)

  -- What a caller is given.
  abbrev pub GivenSound : Result LoadError (Option WorkflowConfig) → Type 0
  GivenSound (ok c) = OrNone IsSound c
  GivenSound (err why) = Unit

  outcome-Sound :
      (strict : Bool) (d : WorkflowFile) (k : Option WorkflowConfig)
      → FileSound d
      → OrNone IsSound k
      → GivenSound (outcome strict d k)
  outcome-Sound strict absent k h s = tt
  outcome-Sound strict plain k h s = tt
  outcome-Sound strict (good c) k h s = h
  outcome-Sound true (faulty why) k h s = tt
  outcome-Sound false (faulty why) k h s = s
  outcome-Sound strict (failing why) k h s = tt

  empty-Sound : CacheSound []
  unfolding get
  empty-Sound path = tt

  -- After any sequence of loads that starts with an empty cache, and whatever the next file holds, the
  -- configuration that the next load gives satisfies the bounds of the schema, a cached one too.
  pub load-loads-Sound :
      (ls : List Load) (l : Load)
      → GivenSound
          (given (load_workflow_definition py safe_load (loads [] ls) l.path l.content l.strict).1)
  load-loads-Sound ls l =
      let done =
        load_workflow_definition-Implements py safe_load (loads [] ls) l.path l.content l.strict in
      subst GivenSound (sym done.caller) (
        outcome-Sound l.strict _ _ (document-Sound l.content)
          (loads-Sound [] ls empty-Sound l.path))

  -- A load of another path, or of a file with a fault.
  abbrev pub Harmless : String → Load → Type 0
  Harmless path l = ((l.path == path) ≡ false) ⊎ IsFaulty (document py safe_load l.content)

  known_after_fault :
      (d : WorkflowFile) (k : Option WorkflowConfig) → IsFaulty d → known_after d k ≡ k
  known_after_fault absent k h = absurd h
  known_after_fault plain k h = absurd h
  known_after_fault (good c) k h = absurd h
  known_after_fault (faulty why) k h = refl
  known_after_fault (failing why) k h = refl

  load-known :
      (cache : Cache) (path : String) (l : Load)
      → Harmless path l
      → known (after_load cache l) path ≡ known cache path
  load-known cache path l h =
      let done = load_workflow_definition-Implements py safe_load cache l.path l.content l.strict in
      elim (Bool-cases (l.path == path)) [
        | inr other ↦ ap config_of (done.others path other)
        | inl same ↦ elim h [
          | inl other ↦ absurd (cc (sym same ∙ other))
          | inr fault ↦
              subst (λ p. known (after_load cache l) p ≡ known cache p)
                ((string_eq.equal_iff l.path path).0 same)
                (done.path_known ∙ known_after_fault _ (known cache l.path) fault)
        ]
      ]

  loads-known :
      (cache : Cache) (path : String) (ls : List Load)
      → All (Harmless path) ls
      → known (loads cache ls) path ≡ known cache path
  unfolding loads
  loads-known cache path [] h = refl
  loads-known cache path (l ∷ ls) h =
      loads-known (after_load cache l) path ls h.1 ∙ load-known cache path l h.0

  -- Once a load has read a good configuration at a path, a load of a file with a fault that is not strict
  -- gives that configuration, however many loads of faulty files, strict or not, and of other paths lie
  -- between, as long as none of them finds the file missing or without front matter.
  pub last_known_good :
      (cache : Cache) (path first : String) (first_strict : Bool) (ls : List Load) (s : String)
      {c : WorkflowConfig} {why : LoadError}
      → document py safe_load (some first) ≡ good c
      → All (Harmless path) ls
      → document py safe_load (some s) ≡ faulty why
      → given
          (load_workflow_definition py safe_load
            (loads
              (load_workflow_definition py safe_load cache path (some first) first_strict).0
              ls)
            path
            (some s)
            false).1
        ≡ ok (some c)
  last_known_good cache path first first_strict ls s {c} {why} g h f =
      let start =
        load_workflow_definition-Implements py safe_load cache path (some first) first_strict in
      let between =
        loads (load_workflow_definition py safe_load cache path (some first) first_strict).0 ls in
      let last = load_workflow_definition-Implements py safe_load between path (some s) false in
      let stays : known between path ≡ some c =
        loads-known _ path ls h ∙ start.path_known ∙ ap (λ d. known_after d (known cache path)) g in
      last.caller ∙ ap (λ d. outcome false d (known between path)) f ∙ ap ok stays

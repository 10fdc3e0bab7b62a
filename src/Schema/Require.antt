-- ===== src/Schema/Require.antt =====
-- app/contracts/workflow_schema.py: the checks that every section shares, and the ways in which it reads a key.
use dev_bot.Base.{String, Bool, Option, none, some, List, [], ◌∷◌, if◌then◌else◌}
use Prim.Native.String
use dev_bot.Base.Result.{Result, ok, err, ◌>>=◌}
use dev_bot.Base.Text.{or_else, strip}
use dev_bot.Base.Ints.{ℤ}
use dev_bot.Schema.Yaml.{
  Float, YamlValue, null, boolean, integer, decimal, text, sequence, mapping, date, YamlItems, nil,
  cons, YamlFields, end, Conversions, get_field, str, truth, to_int, to_float,
}

-- The schema's own exception with its message, or one that a conversion raises.
pub data SchemaError : Type 0 where
  workflow_validation_error : String → SchemaError
  conversion_error : SchemaError

abbrev pub Checked {ℓ} : Type ℓ → Type ℓ
Checked A = Result SchemaError A

abbrev pub refuse {ℓ} : {A : Type ℓ} → String → String → Checked A
refuse field_name what = err (workflow_validation_error (String.◌++◌ field_name what))

-- A test that raises.
abbrev pub when {ℓ} : {A : Type ℓ} → Bool → Checked A → Checked A → Checked A
when test refused accepted = if test then refused else accepted

unfoldable pub require_mapping : YamlValue → String → Checked YamlFields
require_mapping (mapping fs) field_name = ok fs
require_mapping null field_name = refuse field_name " must be a mapping"
require_mapping (boolean b) field_name = refuse field_name " must be a mapping"
require_mapping (integer n) field_name = refuse field_name " must be a mapping"
require_mapping (decimal x) field_name = refuse field_name " must be a mapping"
require_mapping (text s) field_name = refuse field_name " must be a mapping"
require_mapping (sequence xs) field_name = refuse field_name " must be a mapping"
require_mapping (date s) field_name = refuse field_name " must be a mapping"

abbrev with_text : YamlValue → Option (List String) → Option (List String)
with_text (text s) (some rest) = some (s ∷ rest)
with_text v rest = none

abbrev texts : YamlItems → Option (List String)
texts nil = some []
texts (cons v vs) = with_text v (texts vs)

abbrev with_mapping : YamlValue → Option (List YamlFields) → Option (List YamlFields)
with_mapping (mapping fs) (some rest) = some (fs ∷ rest)
with_mapping v rest = none

abbrev mappings : YamlItems → Option (List YamlFields)
mappings nil = some []
mappings (cons v vs) = with_mapping v (mappings vs)

abbrev sequence_items : YamlValue → Option YamlItems
sequence_items (sequence xs) = some xs
sequence_items v = none

abbrev pub or_refuse {ℓ} : {A : Type ℓ} → String → String → Option A → Checked A
or_refuse field_name what none = refuse field_name what
or_refuse field_name what (some a) = ok a

abbrev then_all {ℓ} : {A : Type ℓ} → (YamlItems → Option A) → Option YamlItems → Option A
then_all all none = none
then_all all (some xs) = all xs

unfoldable pub require_list_of_strings : YamlValue → String → Checked (List String)
require_list_of_strings value field_name =
    or_refuse field_name " must be a list of strings" (then_all texts (sequence_items value))

unfoldable pub require_list_of_mappings : YamlValue → String → Checked (List YamlFields)
require_list_of_mappings value field_name =
    or_refuse field_name " must be a list of mappings" (then_all mappings (sequence_items value))

abbrev value_or {ℓ} : {A : Type ℓ} → (YamlValue → A) → A → Option YamlValue → A
value_or read default none = default
value_or read default (some v) = read v

-- str(data.get(name, default)).strip()
unfoldable pub text_field : Conversions → YamlFields → String → String → String
text_field py fields name default = strip (value_or (str py) default (get_field fields name))

-- str(data.get(name, default)).strip() or default
unfoldable pub text_or : Conversions → YamlFields → String → String → String
text_or py fields name default = or_else (text_field py fields name default) default

-- bool(data.get(name, default))
unfoldable pub flag : YamlFields → String → Bool → Bool
flag fields name default = value_or truth default (get_field fields name)

abbrev pub converted {ℓ} : {A : Type ℓ} → Option A → Checked A
converted none = err conversion_error
converted (some a) = ok a

-- int(data.get(name, default))
unfoldable pub int_field : YamlFields → String → ℤ → Checked ℤ
int_field fields name default =
    value_or (λ v. converted (to_int v)) (ok default) (get_field fields name)

-- float(data.get(name, default))
unfoldable pub float_field : Conversions → YamlFields → String → Float → Checked Float
float_field py fields name default =
    value_or (λ v. converted (to_float py v)) (ok default) (get_field fields name)

-- _require_list_of_strings(data.get(name, default), field_name=...)
unfoldable pub strings_field : YamlFields → String → List String → String → Checked (List String)
strings_field fields name default field_name =
    value_or (λ v. require_list_of_strings v field_name) (ok default) (get_field fields name)

-- from_dict(data[name]) if name in data else default
unfoldable pub section_or {ℓ} :
    {A : Type ℓ} → YamlFields → String → (YamlValue → Checked A) → A → Checked A
section_or fields name from_dict default = value_or from_dict (ok default) (get_field fields name)

abbrev pub present {ℓ} : {A : Type ℓ} → Checked A → Checked (Option A)
present result = result >>= λ a. ok (some a)

-- from_dict(data[name]) if name in data else None
unfoldable pub section_of {ℓ} :
    {A : Type ℓ} → YamlFields → String → (YamlValue → Checked A) → Checked (Option A)
section_of fields name from_dict =
    value_or (λ v. present (from_dict v)) (ok none) (get_field fields name)

-- _require_mapping(data.get(name, {}), field_name=...)
unfoldable pub mapping_field : YamlFields → String → String → Checked YamlFields
mapping_field fields name field_name =
    value_or (λ v. require_mapping v field_name) (ok end) (get_field fields name)

-- _require_list_of_mappings(data.get(name, []), field_name=...)
unfoldable pub mappings_field : YamlFields → String → String → Checked (List YamlFields)
mappings_field fields name field_name =
    value_or (λ v. require_list_of_mappings v field_name) (ok []) (get_field fields name)

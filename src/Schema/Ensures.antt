-- ===== src/Schema/Ensures.antt =====
-- app/contracts/workflow_schema.py: what a check gives when it returns, and that an exception of the schema has
-- a message.
use dev_bot.Base.{
  ◌≡◌, refl, ap, ◌∙◌, String, Bool, true, false, ◌||◌, Option, none, some, List, inl, inr,
  Option-cases,
}
use Prim.Native.String
use package.text.Mathlib.TextLemmas.{nil-append, cons-append}
use dev_bot.Base.Result.{ok, err, ◌>>=◌}
use dev_bot.Base.Text.{is_empty, or_else, strip}
use dev_bot.Base.Visible.{strip-strip}
use dev_bot.Base.Ints.{ℤ}
use dev_bot.Schema.Yaml.{
  Float, YamlValue, null, boolean, integer, decimal, text, sequence, mapping, date, YamlFields,
  Conversions, get_field, to_int, to_float,
}
use dev_bot.Schema.Require.{
  Checked, SchemaError, workflow_validation_error, conversion_error, refuse, when, require_mapping,
  require_list_of_strings, require_list_of_mappings, or_refuse, converted, text_field, text_or,
  int_field, float_field, strings_field, mappings_field, mapping_field, section_or, section_of,
}

abbrev pub Described : SchemaError → Type 0
Described (workflow_validation_error message) = is_empty message ≡ false
Described conversion_error = Unit

pub data Ensures {A : Type 0} (P : A → Type 0) : Checked A → Type 0 where
  returns : {a : A} → P a → Ensures P (ok a)
  raises : {why : SchemaError} → Described why → Ensures P (err why)

abbrev pub Anything : {A : Type 0} → A → Type 0
Anything a = Unit

pub Ensures-bind :
    {A B : Type 0} {Q : A → Type 0} {P : B → Type 0} (m : Checked A) (f : A → Checked B)
    → Ensures Q m
    → ((a : A) → Q a → Ensures P (f a))
    → Ensures P (m >>= f)
Ensures-bind (ok a) f (returns q) h = h a q
Ensures-bind (err why) f (raises d) h = raises d

is_empty-append : (s t : String) → is_empty t ≡ false → is_empty (String.◌++◌ s t) ≡ false
is_empty-append String.[] t h = ap is_empty (nil-append t) ∙ h
is_empty-append (String.◌∷◌ c s) t h = ap is_empty (cons-append c s t)

pub Ensures-refuse :
    {A : Type 0} {P : A → Type 0} (field_name what : String)
    → is_empty what ≡ false
    → Ensures P (refuse field_name what)
Ensures-refuse field_name what h = raises (is_empty-append field_name what h)

pub is_empty-append_filled :
    (s t : String) → is_empty s ≡ false → is_empty (String.◌++◌ s t) ≡ false
is_empty-append_filled String.[] t h = absurd (cc h)
is_empty-append_filled (String.◌∷◌ c s) t h = ap is_empty (cons-append c s t)

pub Ensures-refuse_filled :
    {A : Type 0} {P : A → Type 0} (field_name what : String)
    → is_empty field_name ≡ false
    → Ensures P (refuse field_name what)
Ensures-refuse_filled field_name what h = raises (is_empty-append_filled field_name what h)

pub Ensures-when :
    {A : Type 0} {P : A → Type 0} (test : Bool) (refused accepted : Checked A)
    → Ensures P refused
    → (test ≡ false → Ensures P accepted)
    → Ensures P (when test refused accepted)
Ensures-when true refused accepted r a = r
Ensures-when false refused accepted r a = a refl

pub Ensures-require_mapping :
    (value : YamlValue) (field_name : String) → Ensures Anything (require_mapping value field_name)
unfolding require_mapping
Ensures-require_mapping (mapping fs) field_name = returns tt
Ensures-require_mapping null field_name = Ensures-refuse field_name _ refl
Ensures-require_mapping (boolean b) field_name = Ensures-refuse field_name _ refl
Ensures-require_mapping (integer n) field_name = Ensures-refuse field_name _ refl
Ensures-require_mapping (decimal x) field_name = Ensures-refuse field_name _ refl
Ensures-require_mapping (text s) field_name = Ensures-refuse field_name _ refl
Ensures-require_mapping (sequence xs) field_name = Ensures-refuse field_name _ refl
Ensures-require_mapping (date s) field_name = Ensures-refuse field_name _ refl

Ensures-or_refuse :
    {A : Type 0} (field_name what : String) (o : Option A)
    → is_empty what ≡ false
    → Ensures Anything (or_refuse field_name what o)
Ensures-or_refuse field_name what none h = Ensures-refuse field_name what h
Ensures-or_refuse field_name what (some a) h = returns tt

Ensures-converted : {A : Type 0} (o : Option A) → Ensures Anything (converted o)
Ensures-converted none = raises tt
Ensures-converted (some a) = returns tt

pub Ensures-int_field :
    (fields : YamlFields) (name : String) (default : ℤ)
    → Ensures Anything (int_field fields name default)
unfolding int_field
Ensures-int_field fields name default = elim (Option-cases (get_field fields name)) [
  | inl e ↦ rw e (returns tt)
  | inr (v, e) ↦ rw e (Ensures-converted (to_int v))
]

pub Ensures-float_field :
    (py : Conversions) (fields : YamlFields) (name : String) (default : Float)
    → Ensures Anything (float_field py fields name default)
unfolding float_field
Ensures-float_field py fields name default = elim (Option-cases (get_field fields name)) [
  | inl e ↦ rw e (returns tt)
  | inr (v, e) ↦ rw e (Ensures-converted (to_float py v))
]

pub Ensures-strings_field :
    (fields : YamlFields) (name : String) (default : List String) (field_name : String)
    → Ensures Anything (strings_field fields name default field_name)
unfolding strings_field require_list_of_strings
Ensures-strings_field fields name default field_name = elim (Option-cases (get_field fields name)) [
  | inl e ↦ rw e (returns tt)
  | inr (v, e) ↦ rw e (Ensures-or_refuse field_name _ _ refl)
]

pub Ensures-mappings_field :
    (fields : YamlFields) (name field_name : String)
    → Ensures Anything (mappings_field fields name field_name)
unfolding mappings_field require_list_of_mappings
Ensures-mappings_field fields name field_name = elim (Option-cases (get_field fields name)) [
  | inl e ↦ rw e (returns tt)
  | inr (v, e) ↦ rw e (Ensures-or_refuse field_name _ _ refl)
]

pub Ensures-mapping_field :
    (fields : YamlFields) (name field_name : String)
    → Ensures Anything (mapping_field fields name field_name)
unfolding mapping_field
Ensures-mapping_field fields name field_name = elim (Option-cases (get_field fields name)) [
  | inl e ↦ rw e (returns tt)
  | inr (v, e) ↦ rw e (Ensures-require_mapping v field_name)
]

pub Ensures-section_or :
    {A : Type 0} {P : A → Type 0} (fields : YamlFields) (name : String)
    (from_dict : YamlValue → Checked A) (default : A)
    → P default
    → ((v : YamlValue) → Ensures P (from_dict v))
    → Ensures P (section_or fields name from_dict default)
unfolding section_or
Ensures-section_or fields name from_dict default d h = elim (Option-cases (get_field fields name)) [
  | inl e ↦ rw e (returns d)
  | inr (v, e) ↦ rw e (h v)
]

-- A value that may be missing.
abbrev pub OrNone : {A : Type 0} → (A → Type 0) → Option A → Type 0
OrNone P none = Unit
OrNone P (some a) = P a

pub Ensures-section_of :
    {A : Type 0} {P : A → Type 0} (fields : YamlFields) (name : String)
    (from_dict : YamlValue → Checked A)
    → ((v : YamlValue) → Ensures P (from_dict v))
    → Ensures (OrNone P) (section_of fields name from_dict)
unfolding section_of
Ensures-section_of fields name from_dict h = elim (Option-cases (get_field fields name)) [
  | inl e ↦ rw e (returns tt)
  | inr (v, e) ↦ rw e (Ensures-bind (from_dict v) _ (h v) (λ a p. returns p))
]

-- A text with something in it and no space around it.
pub record IsTrimmed (s : String) : Type 0 where
  pub filled : is_empty s ≡ false
  pub trimmed : strip s ≡ s

pub text_field-IsTrimmed :
    (py : Conversions) (fields : YamlFields) (name default : String)
    → is_empty (text_field py fields name default) ≡ false
    → IsTrimmed (text_field py fields name default)
unfolding text_field
text_field-IsTrimmed py fields name default h = record { filled = h; trimmed = strip-strip _ }

or_else-IsTrimmed :
    (s default : String) → strip s ≡ s → IsTrimmed default → IsTrimmed (or_else s default)
unfolding or_else
or_else-IsTrimmed String.[] default h d = d
or_else-IsTrimmed (String.◌∷◌ c s) default h d = record { filled = refl; trimmed = h }

pub text_or-IsTrimmed :
    (py : Conversions) (fields : YamlFields) (name default : String)
    → IsTrimmed default
    → IsTrimmed (text_or py fields name default)
unfolding text_or text_field
text_or-IsTrimmed py fields name default d = or_else-IsTrimmed _ default (strip-strip _) d

pub both_filled : (a b : Bool) → (a || b) ≡ false → (a ≡ false) × (b ≡ false)
both_filled true b h = absurd (cc h)
both_filled false b h = (refl, h)

pub constant : (s : String) → is_empty s ≡ false → strip s ≡ s → IsTrimmed s
constant s filled trimmed = record { filled = filled; trimmed = trimmed }

-- ===== src/Schema/Yaml.antt =====
-- app/contracts/workflow_schema.py: the values that `yaml.safe_load` gives, and Python's `str`, `bool`, `int`
-- and `float` of them.
--
-- What Python writes for a list, a mapping or a date, and the conversions into a float, are arguments. `int` of a
-- text reads ASCII digits.
use dev_bot.Base.{
  ℕ, suc, ◌+◌, ◌-◌, ◌*◌, String, Bool, true, false, not, ◌&&◌, ◌||◌, Option, none, some, leb,
  nat_beq, if◌then◌else◌,
}
use Prim.Native.Char.{code}
use Prim.Native.String
use dev_bot.Base.Eq.{string_eq, ◌==◌}
use dev_bot.Base.Text.{is_empty, strip, show}
use dev_bot.Base.Ints.{ℤ, pos, negsuc, is_zero}

-- What is read of a float: its text, whether it is other than 0, and the whole number that `int` gives, which
-- an infinity does not have.
pub record Float : Type 0 where
  pub shown : String
  pub nonzero : Bool
  pub whole : Option ℤ

-- A key is a text, or something else with the text that `str` gives.
pub data Key : Type 0 where
  named unnamed : String → Key

mutual
  pub data YamlValue : Type 0 where
    null : YamlValue
    boolean : Bool → YamlValue
    integer : ℤ → YamlValue
    decimal : Float → YamlValue
    text : String → YamlValue
    sequence : YamlItems → YamlValue
    mapping : YamlFields → YamlValue
    date : String → YamlValue

  pub data YamlItems : Type 0 where
    nil : YamlItems
    cons : YamlValue → YamlItems → YamlItems

  pub data YamlFields : Type 0 where
    end : YamlFields
    field : Key → YamlValue → YamlFields → YamlFields

-- The parts of Python's conversions that stand outside of the model; `none` is an exception.
pub record Conversions : Type 0 where
  pub shown : YamlValue → String
  pub float_of_int : ℤ → Option Float
  pub float_of_text : String → Option Float

abbrev pub key_text : Key → String
key_text (named name) = name
key_text (unnamed name) = name

abbrev is_named : Key → String → Bool
is_named (named own) name = own == name
is_named (unnamed own) name = false

-- data.get(name)
unfoldable pub get_field : YamlFields → String → Option YamlValue
get_field end name = none
get_field (field k v rest) name = if is_named k name then some v else get_field rest name

abbrev pub show_int : ℤ → String
show_int (pos n) = show n
show_int (negsuc n) = String.◌++◌ "-" (show (suc n))

-- str(value)
unfoldable pub str : Conversions → YamlValue → String
str py null = "None"
str py (boolean true) = "True"
str py (boolean false) = "False"
str py (integer n) = show_int n
str py (decimal x) = x.shown
str py (text s) = s
str py (sequence xs) = py.shown (sequence xs)
str py (mapping fs) = py.shown (mapping fs)
str py (date s) = s

-- bool(value)
unfoldable pub truth : YamlValue → Bool
truth null = false
truth (boolean b) = b
truth (integer n) = not (is_zero n)
truth (decimal x) = x.nonzero
truth (text s) = not (is_empty s)
truth (sequence nil) = false
truth (sequence (cons x xs)) = true
truth (mapping end) = false
truth (mapping (field k v fs)) = true
truth (date s) = true

abbrev is_digit : ℕ → Bool
is_digit c = leb 48 c && leb c 57

-- Digits, with single underscores between them.
abbrev grouped : Bool → String → Bool
grouped after_digit String.[] = after_digit
grouped after_digit (String.◌∷◌ c s) =
    (is_digit (code c) || nat_beq (code c) b'_' && after_digit) && grouped (is_digit (code c)) s

abbrev grouped_value : ℕ → String → ℕ
grouped_value v String.[] = v
grouped_value v (String.◌∷◌ c s) =
    grouped_value (if nat_beq (code c) b'_' then v else v * 10 + (code c - 48)) s

abbrev natural : String → Option ℕ
natural s = if grouped false s then some (grouped_value 0 s) else none

abbrev negated : ℕ → ℤ
negated n = if nat_beq n 0 then pos 0 else negsuc (n - 1)

abbrev with_sign : (ℕ → ℤ) → Option ℕ → Option ℤ
with_sign sign none = none
with_sign sign (some n) = some (sign n)

abbrev signed : String → Option ℤ
signed String.[] = none
signed (String.◌∷◌ c s) =
    if nat_beq (code c) b'-'
    then with_sign negated (natural s)
    else if nat_beq (code c) b'+'
    then with_sign pos (natural s)
    else with_sign pos (natural (String.◌∷◌ c s))

-- int(value); `none` is a ValueError, a TypeError or an OverflowError
unfoldable pub to_int : YamlValue → Option ℤ
to_int null = none
to_int (boolean true) = some (pos 1)
to_int (boolean false) = some (pos 0)
to_int (integer n) = some n
to_int (decimal x) = x.whole
to_int (text s) = signed (strip s)
to_int (sequence xs) = none
to_int (mapping fs) = none
to_int (date s) = none

-- float(value)
unfoldable pub to_float : Conversions → YamlValue → Option Float
to_float py null = none
to_float py (boolean true) = py.float_of_int (pos 1)
to_float py (boolean false) = py.float_of_int (pos 0)
to_float py (integer n) = py.float_of_int n
to_float py (decimal x) = some x
to_float py (text s) = py.float_of_text s
to_float py (sequence xs) = none
to_float py (mapping fs) = none
to_float py (date s) = none

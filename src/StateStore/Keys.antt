-- ===== src/StateStore/Keys.antt =====
-- app/state_store.py: the keys of issues and the names of their directories.
use Prim.Native.Char.{code}
use Prim.Native.String.{◌++◌ as str_append}
use dev_bot.Base.{ℕ, String, Bool, false, ◌&&◌, ◌||◌, Option, none, some, nat_beq, if◌then◌else◌}

-- c in s
unfoldable pub has_char : ℕ → String → Bool
has_char c String.[] = false
has_char c (String.◌∷◌ d s) = nat_beq (code d) c || has_char c s

unfoldable pub is_issue_key : String → Bool
is_issue_key value = has_char b'#' value && has_char b'/' value

-- s.replace(c, "__")
unfoldable pub replace_char : ℕ → String → String
replace_char c String.[] = ""
replace_char c (String.◌∷◌ d s) =
    let rest = replace_char c s in
    if nat_beq (code d) c then str_append "__" rest else String.◌∷◌ d rest

unfoldable pub safe_issue_key : String → String
safe_issue_key issue_key = replace_char b'#' (replace_char b'/' issue_key)

-- issue_key.split("#", 1), unpacked: a text without "#" raises
unfoldable pub split_issue_key : String → Option (String × String)
split_issue_key String.[] = none
split_issue_key (String.◌∷◌ d s) =
    let rest = split_issue_key s in
    if nat_beq (code d) b'#'
    then some ("", s)
    else elim rest [ none ↦ none | some parts ↦ some (String.◌∷◌ d parts.0, parts.1) ]

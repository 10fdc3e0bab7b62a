-- ===== src/Verification/Scope.antt =====
-- app/verification_profiles.py: the directory that a verification is about, and commands run in it.
use Prim.Native.Char.{code}
use Prim.Native.String.{◌++◌ as str_append}
use dev_bot.Base.{
  String, Bool, true, false, not, ◌&&◌, ◌||◌, List, [], ◌∷◌, map, nat_beq, if◌then◌else◌,
}
use dev_bot.Base.Eq.{string_eq, ◌==◌}
use dev_bot.Base.Sets.{add}
use dev_bot.Base.Text.{is_empty}
use dev_bot.Base.Items.{stripped}
use dev_bot.Base.Join.{concat}

-- The first piece of a text takes one more character.
abbrev extend : String → List String → List String
extend c [] = c ∷ []
extend c (piece ∷ pieces) = str_append c piece ∷ pieces

-- `s.split("/")`
unfoldable pub split_slash : String → List String
split_slash String.[] = "" ∷ []
split_slash (String.◌∷◌ c s) =
    let rest = split_slash s in
    if nat_beq (code c) b'/' then "" ∷ rest else extend (String.◌∷◌ c String.[]) rest

abbrev real_parts : List String → List String
real_parts [] = []
real_parts (p ∷ ps) = let rest = real_parts ps in if is_empty p || p == "." then rest else p ∷ rest

abbrev starts_with_slash : String → Bool
starts_with_slash String.[] = false
starts_with_slash (String.◌∷◌ c s) = nat_beq (code c) b'/'

abbrev without_first : String → String
without_first String.[] = ""
without_first (String.◌∷◌ c s) = s

-- The root, which is the first part of an absolute path: two slashes are one of their own, but not three.
abbrev with_root : String → List String → List String
with_root path parts =
    let second = starts_with_slash (without_first path) in
    let third = starts_with_slash (without_first (without_first path)) in
    if starts_with_slash path then (if second && not third then "//" else "/") ∷ parts else parts

-- `Path(path).parts` of a path that is not empty
unfoldable pub path_parts : String → List String
unfolding split_slash
path_parts path = with_root path (real_parts (split_slash path))

-- The loop of `_select_scope`: the top directories, and whether a file stands at the root.
unfoldable pub scan_scope : List String → Bool → List String → List String × Bool
scan_scope [] root_files top_dirs = (top_dirs, root_files)
scan_scope (path ∷ paths) root_files top_dirs =
    let at_root = scan_scope paths true top_dirs in
    let below = λ (dir : String). scan_scope paths root_files (add top_dirs dir) in
    elim (path_parts path) [
      | [] ↦ at_root
      | dir ∷ inner ↦ elim inner [ [] ↦ at_root | _ ∷ _ ↦ below dir ]
    ]

abbrev pub one_directory : List String × Bool → List String
one_directory (top_dirs, true) = "." ∷ []
one_directory ([], false) = "." ∷ []
one_directory (dir ∷ [], false) = dir ∷ []
one_directory (dir ∷ other ∷ dirs, false) = "." ∷ []

unfoldable pub select_scope : List String → List String
unfolding scan_scope
select_scope candidate_files = one_directory (scan_scope (stripped candidate_files) false [])

abbrev pub first_path : List String → String
first_path [] = "."
first_path (path ∷ paths) = path

abbrev pub is_whole : List String → Bool
is_whole [] = false
is_whole (path ∷ []) = path == "."
is_whole (path ∷ other ∷ paths) = false

-- Both branches of the test on the command's prefix put the same directory in front.
unfoldable pub commands_for_scope : List String → List String → List String
commands_for_scope commands scope_paths =
    if is_whole scope_paths
    then stripped commands
    else map (λ command. concat ("cd " ∷ first_path scope_paths ∷ " && " ∷ command ∷ []))
        (stripped commands)

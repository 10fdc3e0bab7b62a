-- ===== src/Base/Join.antt =====
-- Texts put together: f-strings and `str.join`.
use Prim.Native.String.{String, ◌++◌}
use mathlib.Core.Path.{◌≡◌, refl}
use mathlib.Core.List.{List, [], ◌∷◌}

-- An f-string, given its parts.
abbrev pub concat : List String → String
concat [] = ""
concat (part ∷ parts) = part ++ concat parts

-- sep.join(parts)
unfoldable pub join : String → List String → String
join sep [] = ""
join sep (part ∷ []) = part
join sep (part ∷ next ∷ parts) = part ++ (sep ++ join sep (next ∷ parts))

join_runs : join ", " ("a" ∷ "b" ∷ "c" ∷ []) ≡ "a, b, c"
unfolding join
join_runs = refl

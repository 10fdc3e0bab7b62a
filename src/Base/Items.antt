-- ===== src/Base/Items.antt =====
-- The lists of texts that the program makes of a list of values: `str` of each, without the blank ones.
use mathlib.Core.List.{List, [], ◌∷◌}
use Prim.Native.String.{String}
use dev_bot.Base.Tests.{if◌then◌else◌}
use dev_bot.Base.Text.{is_empty, strip}

-- [s for s in items if s.strip()]
unfoldable pub nonblank : List String → List String
nonblank [] = []
nonblank (s ∷ ss) = let rest = nonblank ss in if is_empty (strip s) then rest else s ∷ rest

-- [s.strip() for s in items if s.strip()]
unfoldable pub stripped : List String → List String
stripped [] = []
stripped (s ∷ ss) = let rest = stripped ss in if is_empty (strip s) then rest else strip s ∷ rest

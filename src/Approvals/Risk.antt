-- ===== src/Approvals/Risk.antt =====
-- app/approvals.py, `is_high_risk_command`, on code points. `str.lower` is the parameter `lower`.
use dev_bot.Base.{Bool, true, false, ◌&&◌, ◌||◌, List, [], ◌∷◌, nat_beq}
use dev_bot.Base.Codes.{Codes, codes}
use dev_bot.Base.Lists.{any}

abbrev pub starts_with : Codes → Codes → Bool
starts_with [] s = true
starts_with (p ∷ ps) [] = false
starts_with (p ∷ ps) (c ∷ s) = nat_beq p c && starts_with ps s

-- `pattern in s`
unfoldable pub is_part_of : Codes → Codes → Bool
is_part_of pattern_ [] = starts_with pattern_ []
is_part_of pattern_ (c ∷ s) = starts_with pattern_ (c ∷ s) || is_part_of pattern_ s

abbrev pub high_risk_patterns : List Codes
high_risk_patterns =
    codes "alembic upgrade head"
    ∷ codes "alembic revision"
    ∷ codes "terraform apply"
    ∷ codes "kubectl apply"
    ∷ codes "rm -rf"
    ∷ codes "git push --force"
    ∷ []

unfoldable pub is_high_risk_command : (Codes → Codes) → Codes → Bool
is_high_risk_command lower command = any (λ p. is_part_of p (lower command)) high_risk_patterns

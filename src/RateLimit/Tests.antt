-- ===== src/RateLimit/Tests.antt =====
-- Runs of the limiter on a clock that counts seconds, and names of repositories.
use dev_bot.Base.{ℕ, ◌-◌, ◌≤◌, ◌<◌, ◌≡◌, ◌↔◌, refl, Bool, true, false, [], ◌∷◌, arith, ltb}
use dev_bot.Base.Eq.{string_eq}
use dev_bot.Base.Codes.{codes}
use dev_bot.Base.Dict
use dev_bot.RateLimit.{Calls, key, in_window, cleanup, record_call, allow, remaining}
use dev_bot.RateLimit.Window.{Runs, new, called, count_allowed}
use dev_bot.RateLimit.Bound.{window_bound, allow_exact}
use dev_bot.RateLimit.RepoName.{
  has_two_dots, validate_repo_name, IsRepoName, validate_repo_name_iff, is_name_char, match_owner,
  match_repo,
}

-- A window of ten seconds.
abbrev fresh : ℕ → ℕ → Bool
fresh now t = ltb (now - t) 10

trans : (a b c : ℕ) → a ≤ b → b ≤ c → a ≤ c
trans a b c h i = omega arith

mono : (a b t : ℕ) → a ≤ b → fresh a t ≡ false → fresh b t ≡ false
mono a b t h i = ground arith

abbrev once : Calls ℕ
once = (allow fresh 1 [] "7" "run" 3 4).0

once-Runs : Runs fresh 1 (λ a b. a ≤ b) 4 once (("7:run", 4) ∷ [])
unfolding allow record_call key cleanup in_window Dict.get Dict.put
once-Runs = called "7" "run" 3 4 (new 0) (omega arith) (omega arith)

refused_soon : (allow fresh 1 once "7" "run" 5 5).1 ≡ false
unfolding allow record_call key cleanup in_window Dict.get Dict.put
refused_soon = refl

window_bound_example : count_allowed fresh "7:run" 5 (("7:run", 4) ∷ []) ≤ 1
window_bound_example =
    window_bound fresh 1 (λ a b. a ≤ b) trans mono "7:run" 5 once-Runs (omega arith)

allow_exact_example :
    (((allow fresh 1 once "7" "run" 20 20).1 ≡ true)
      ↔ (count_allowed fresh (key "7" "run") 20 (("7:run", 4) ∷ []) < 1))
    × ((remaining fresh 1 once "7" "run" 20).1
        ≡ 1 - count_allowed fresh (key "7" "run") 20 (("7:run", 4) ∷ []))
allow_exact_example =
    allow_exact fresh 1 (λ a b. a ≤ b) trans mono "7" "run" 20 20 once-Runs (omega arith)

newline_accepted : validate_repo_name (codes "o/r\n") ≡ true
unfolding validate_repo_name has_two_dots match_owner match_repo is_name_char
newline_accepted = refl

validate_repo_name_iff_example :
    (validate_repo_name (codes "owner/repo") ≡ true)
    ↔ ((has_two_dots (codes "owner/repo") ≡ false) × IsRepoName (codes "owner/repo"))
validate_repo_name_iff_example = validate_repo_name_iff (codes "owner/repo")

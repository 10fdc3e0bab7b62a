-- ===== src/RateLimit.antt =====
-- app/discord_security.py: the limiter of commands per user with its sliding window, and the test of
-- a repository's name.
--
-- A reading of `time.monotonic()` has an abstract type. What the limiter does with two readings is one
-- test, `fresh now t` for `now - t < window_seconds`.
pub mod Window
pub mod Bound
pub mod RepoName
mod Tests
use dev_bot.Base.{
  ℕ, String, ◌-◌, Bool, true, false, Option, none, some, List, [], ◌∷◌, ◌++◌, leb, if◌then◌else◌,
}
use dev_bot.Base.Lists.{length}
use dev_bot.Base.Eq.{string_eq}
use dev_bot.Base.Dict
use dev_bot.Base.Dict.{Dict}
use dev_bot.Base.Join.{concat}

-- `_calls`, a `defaultdict(list)`.
abbrev pub Calls : Type 0 → Type 0
Calls F = Dict String (List F)

abbrev pub or_nothing {ℓ} : {A : Type ℓ} → Option (List A) → List A
or_nothing none = []
or_nothing (some xs) = xs

abbrev pub calls_of : {F : Type 0} → Calls F → String → List F
calls_of calls k = or_nothing (Dict.get calls k)

unfoldable pub key : String → String → String
key user_id command = concat (user_id ∷ ":" ∷ command ∷ [])

module _ {F : Type 0} (fresh : F → F → Bool) where
  -- The stamps that are still in the window at `now`.
  unfoldable pub in_window : F → List F → List F
  in_window now [] = []
  in_window now (t ∷ ts) = let rest = in_window now ts in if fresh now t then t ∷ rest else rest

  unfoldable pub cleanup : Calls F → String → F → Calls F
  cleanup calls k now = Dict.put calls k (in_window now (calls_of calls k))

module _ {F : Type 0} (max_calls : ℕ) where
  -- `allow` after its clean-up.
  unfoldable pub record_call : Calls F → String → F → Calls F × Bool
  record_call calls k stamp =
      if leb max_calls (length (calls_of calls k))
      then (calls, false)
      else (Dict.put calls k (calls_of calls k ++ stamp ∷ []), true)

module _ {F : Type 0} (fresh : F → F → Bool) (max_calls : ℕ) where
  -- The clock is read twice: by the clean-up, and for the stamp of the call.
  unfoldable pub allow : Calls F → String → String → F → F → Calls F × Bool
  allow calls user_id command now stamp =
      record_call max_calls (cleanup fresh calls (key user_id command) now) (key user_id command)
        stamp

  unfoldable pub remaining : Calls F → String → String → F → Calls F × ℕ
  remaining calls user_id command now =
      let cleaned = cleanup fresh calls (key user_id command) now in
      (cleaned, max_calls - length (calls_of cleaned (key user_id command)))

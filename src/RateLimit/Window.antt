-- ===== src/RateLimit/Window.antt =====
-- app/discord_security.py, the promise of the limiter: how many calls fall into one window.
use dev_bot.Base.{
  ℕ, String, ◌+◌, ◌≤◌, ◌<◌, ◌≡◌, ◌↔◌, refl, ap, inl, inr, Bool, true, false, List, [], ◌∷◌, ◌++◌,
  arith, leb, if◌then◌else◌, Bool-cases, ◌&&◌,
}
use dev_bot.Base.Lists.{length}
use dev_bot.Base.Eq.{string_eq, ◌==◌}
use dev_bot.Base.Dict
use dev_bot.Base.Sets.{beq_refl}
use dev_bot.RateLimit.{Calls, calls_of, key, in_window, cleanup, record_call, allow, remaining}

module _ {F : Type 0} (fresh : F → F → Bool) (max_calls : ℕ) (le : F → F → Type 0) where
  -- A history of the limiter: the last reading of the clock, the table, and the calls that were
  -- allowed, the last first. The clock does not go back.
  pub data Runs : F → Calls F → List (String × F) → Type 0 where
    new : (t : F) → Runs t [] []
    called :
        {t : F} {calls : Calls F} {allowed : List (String × F)} (user_id command : String)
        (now stamp : F)
        → Runs t calls allowed
        → le t now
        → le now stamp
        → Runs stamp (allow fresh max_calls calls user_id command now stamp).0 (
            if (allow fresh max_calls calls user_id command now stamp).1
            then (key user_id command, stamp) ∷ allowed
            else allowed)
    asked :
        {t : F} {calls : Calls F} {allowed : List (String × F)} (user_id command : String) (now : F)
        → Runs t calls allowed
        → le t now
        → Runs now (remaining fresh max_calls calls user_id command now).0 allowed

module _ {F : Type 0} (fresh : F → F → Bool) where
  -- How many stamps are in the window at `now`.
  abbrev pub count_fresh : F → List F → ℕ
  count_fresh now [] = 0
  count_fresh now (t ∷ ts) = let rest = count_fresh now ts in if fresh now t then rest + 1 else rest

  -- How many of the allowed calls of one key are in the window at `now`.
  abbrev pub count_allowed : String → F → List (String × F) → ℕ
  count_allowed k now [] = 0
  count_allowed k now ((j, t) ∷ calls) =
      let rest = count_allowed k now calls in if j == k && fresh now t then rest + 1 else rest

  pub length-in_window :
      (now : F) (ts : List F) → length (in_window fresh now ts) ≡ count_fresh now ts
  unfolding in_window
  length-in_window now [] = refl
  length-in_window now (t ∷ ts) = ground (arith, length-in_window now ts)

  pub count_fresh-append :
      (now : F) (ts us : List F)
      → count_fresh now (ts ++ us) ≡ count_fresh now ts + count_fresh now us
  count_fresh-append now [] us = omega arith
  count_fresh-append now (t ∷ ts) us = ground (arith, count_fresh-append now ts us)

  pub count_fresh_le : (now : F) (ts : List F) → count_fresh now ts ≤ length ts
  count_fresh_le now [] = omega arith
  count_fresh_le now (t ∷ ts) = ground (arith, count_fresh_le now ts)

  -- What a clean-up takes away is out of every later window.
  pub count_fresh-in_window :
      (now later : F) (ts : List F)
      → ((t : F) → fresh now t ≡ false → fresh later t ≡ false)
      → count_fresh later (in_window fresh now ts) ≡ count_fresh later ts
  unfolding in_window
  count_fresh-in_window now later [] h = refl
  count_fresh-in_window now later (t ∷ ts) h =
      ground (arith, count_fresh-in_window now later ts h, h t)

  pub calls_of-cleanup :
      (calls : Calls F) (k j : String) (now : F)
      → calls_of (cleanup fresh calls k now) j
        ≡ (if k == j then in_window fresh now (calls_of calls k) else calls_of calls j)
  unfolding cleanup
  calls_of-cleanup calls k j now = simp Dict.dict_laws (ground arith)

module _ {F : Type 0} (max_calls : ℕ) where
  -- The stamp is put behind those of its key where there is room.
  pub calls_of-record_call :
      (calls : Calls F) (k j : String) (stamp : F)
      → calls_of (record_call max_calls calls k stamp).0 j ≡ (
          if k == j && (record_call max_calls calls k stamp).1
          then calls_of calls j ++ stamp ∷ []
          else calls_of calls j)
  unfolding record_call
  calls_of-record_call calls k j stamp =
      elim (Bool-cases (leb max_calls (length (calls_of calls k)))) [
        | inl full ↦ rw full (ground arith)
        | inr room ↦ rw room (
            simp Dict.dict_laws
              (ground (arith, string_eq.equal_iff k j, ap (calls_of calls) {x = k} {y = j})))
      ]

module _ {F : Type 0} (fresh : F → F → Bool) (max_calls : ℕ) where
  -- A call is allowed exactly where the window of its key has room.
  pub allow_iff :
      (calls : Calls F) (user_id command : String) (now stamp : F)
      → ((allow fresh max_calls calls user_id command now stamp).1 ≡ true)
        ↔ (count_fresh fresh now (calls_of calls (key user_id command)) < max_calls)
  unfolding allow record_call
  allow_iff calls user_id command now stamp =
      let k = key user_id command in
      ground (
        arith,
        calls_of-cleanup fresh calls k k now,
        length-in_window fresh now (calls_of calls k),
        beq_refl k,
      )

-- ===== src/RateLimit/Bound.antt =====
-- app/discord_security.py, over a whole history: the calls that were allowed in one window.
use dev_bot.Base.{
  ℕ, String, ◌-◌, ◌≤◌, ◌<◌, ◌≡◌, ◌↔◌, refl, sym, ap, Bool, true, false, List, [], ◌∷◌, arith,
  if◌then◌else◌, ◌∙◌,
}
use dev_bot.Base.Lists.{length, length-append}
use dev_bot.Base.Eq.{string_eq}
use dev_bot.Base.Dict
use dev_bot.Base.Sets.{beq_refl}
use dev_bot.RateLimit.{Calls, calls_of, key, cleanup, record_call, allow, remaining}
use dev_bot.RateLimit.Window.{
  Runs, new, called, asked, count_fresh, count_allowed, length-in_window, count_fresh-append,
  count_fresh_le, count_fresh-in_window, calls_of-cleanup, calls_of-record_call, allow_iff,
}

module _ {F : Type 0} (fresh : F → F → Bool) (max_calls : ℕ) where
  -- No key holds more stamps than the limit.
  abbrev Bounded : Calls F → Type 0
  Bounded calls = (k : String) → length (calls_of calls k) ≤ max_calls

  Bounded-cleanup :
      (calls : Calls F) (k : String) (now : F) → Bounded calls → Bounded (cleanup fresh calls k now)
  Bounded-cleanup calls k now h j = ground (
    arith,
    calls_of-cleanup fresh calls k j now,
    length-in_window fresh now (calls_of calls j),
    count_fresh_le fresh now (calls_of calls j),
    string_eq.equal_iff k j,
    ap (calls_of calls) {x = k} {y = j},
    h j,
  )

  -- An allowed call finds room.
  room :
      (calls : Calls F) (k : String) (stamp : F)
      → (record_call max_calls calls k stamp).1 ≡ true
      → length (calls_of calls k) < max_calls
  unfolding record_call
  room calls k stamp h = ground arith

  Bounded-record_call :
      (calls : Calls F) (k : String) (stamp : F)
      → Bounded calls
      → Bounded (record_call max_calls calls k stamp).0
  Bounded-record_call calls k stamp h j = ground (
    arith,
    calls_of-record_call max_calls calls k j stamp,
    length-append (calls_of calls j) (stamp ∷ []),
    string_eq.equal_iff k j,
    ap (calls_of calls) {x = k} {y = j},
    room calls k stamp,
    h j,
  )

  Bounded-allow :
      (calls : Calls F) (user_id command : String) (now stamp : F)
      → Bounded calls
      → Bounded (allow fresh max_calls calls user_id command now stamp).0
  unfolding allow
  Bounded-allow calls user_id command now stamp h =
      Bounded-record_call _ _ stamp (Bounded-cleanup calls (key user_id command) now h)

  Bounded-remaining :
      (calls : Calls F) (user_id command : String) (now : F)
      → Bounded calls
      → Bounded (remaining fresh max_calls calls user_id command now).0
  unfolding remaining
  Bounded-remaining calls user_id command now h = Bounded-cleanup calls (key user_id command) now h

module _ {F : Type 0} (fresh : F → F → Bool) (max_calls : ℕ) (le : F → F → Type 0)
    (le_trans : (a b c : F) → le a b → le b c → le a c)
    (fresh_mono : (a b t : F) → le a b → fresh a t ≡ false → fresh b t ≡ false) where
  Runs-Bounded :
      {t : F} {calls : Calls F} {allowed : List (String × F)}
      → Runs fresh max_calls le t calls allowed
      → Bounded fresh max_calls calls
  Runs-Bounded (new t) = λ k. unfold Dict.get in omega arith
  Runs-Bounded (called {calls} user_id command now stamp r h i) =
      Bounded-allow fresh max_calls calls user_id command now stamp (Runs-Bounded r)
  Runs-Bounded (asked {calls} user_id command now r h) =
      Bounded-remaining fresh max_calls calls user_id command now (Runs-Bounded r)

  -- A clean-up does not change what a later window counts.
  count-cleanup :
      (calls : Calls F) (k j : String) (now later : F)
      → le now later
      → count_fresh fresh later (calls_of (cleanup fresh calls k now) j)
        ≡ count_fresh fresh later (calls_of calls j)
  count-cleanup calls k j now later h = ground (
    arith,
    calls_of-cleanup fresh calls k j now,
    count_fresh-in_window fresh now later (calls_of calls j) (λ t. fresh_mono now later t h),
    string_eq.equal_iff k j,
    ap (calls_of calls) {x = k} {y = j},
  )

  count-record_call :
      (calls : Calls F) (allowed : List (String × F)) (k j : String) (stamp later : F)
      → count_allowed fresh j later allowed ≡ count_fresh fresh later (calls_of calls j)
      → count_allowed fresh j later
          (if (record_call max_calls calls k stamp).1 then (k, stamp) ∷ allowed else allowed)
        ≡ count_fresh fresh later (calls_of (record_call max_calls calls k stamp).0 j)
  count-record_call calls allowed k j stamp later h = ground (
    arith,
    calls_of-record_call max_calls calls k j stamp,
    count_fresh-append fresh later (calls_of calls j) (stamp ∷ []),
    h,
  )

  count-allow :
      (calls : Calls F) (allowed : List (String × F)) (user_id command j : String)
      (now stamp later : F)
      → le now later
      → count_allowed fresh j later allowed ≡ count_fresh fresh later (calls_of calls j)
      → count_allowed fresh j later (
          if (allow fresh max_calls calls user_id command now stamp).1
          then (key user_id command, stamp) ∷ allowed
          else allowed)
        ≡ count_fresh fresh later
            (calls_of (allow fresh max_calls calls user_id command now stamp).0 j)
  unfolding allow
  count-allow calls allowed user_id command j now stamp later l h =
      count-record_call _ allowed (key user_id command) j stamp later
        (h ∙ sym (count-cleanup calls (key user_id command) j now later l))

  count-remaining :
      (calls : Calls F) (user_id command j : String) (now later : F)
      → le now later
      → count_fresh fresh later (calls_of (remaining fresh max_calls calls user_id command now).0 j)
        ≡ count_fresh fresh later (calls_of calls j)
  unfolding remaining
  count-remaining calls user_id command j now later l =
      count-cleanup calls (key user_id command) j now later l

  -- The table holds exactly the allowed calls that a later window can still count.
  Runs-count :
      {t : F} {calls : Calls F} {allowed : List (String × F)} (j : String) (later : F)
      → Runs fresh max_calls le t calls allowed
      → le t later
      → count_allowed fresh j later allowed ≡ count_fresh fresh later (calls_of calls j)
  unfolding Dict.get
  Runs-count j later (new t) h = refl
  Runs-count j later (called {calls} {allowed} user_id command now stamp r h i) l =
      count-allow calls allowed user_id command j now stamp later (le_trans _ _ _ i l)
        (Runs-count j later r (le_trans _ _ _ h (le_trans _ _ _ i l)))
  Runs-count j later (asked {calls} user_id command now r h) l =
      Runs-count j later r (le_trans _ _ _ h l)
      ∙ sym (count-remaining calls user_id command j now later l)

  -- Whatever calls came in and were answered, no window that ends at or after the last reading of the
  -- clock holds more allowed calls of one user and command than the limit. The clock does not go back,
  -- and what is out of the window stays out of it.
  pub window_bound :
      {t : F} {calls : Calls F} {allowed : List (String × F)} (k : String) (now : F)
      → Runs fresh max_calls le t calls allowed
      → le t now
      → count_allowed fresh k now allowed ≤ max_calls
  window_bound {calls} k now r h =
      omega
        (arith, Runs-count k now r h, count_fresh_le fresh now (calls_of calls k), Runs-Bounded r k)

  pub allow_exact :
      {t : F} {calls : Calls F} {allowed : List (String × F)} (user_id command : String)
      (now stamp : F)
      → Runs fresh max_calls le t calls allowed
      → le t now
      → (((allow fresh max_calls calls user_id command now stamp).1 ≡ true)
          ↔ (count_allowed fresh (key user_id command) now allowed < max_calls))
        × ((remaining fresh max_calls calls user_id command now).1
            ≡ max_calls - count_allowed fresh (key user_id command) now allowed)
  unfolding remaining
  allow_exact {calls} user_id command now stamp r h =
      let k = key user_id command in
      ground (
        arith,
        allow_iff fresh max_calls calls user_id command now stamp,
        Runs-count k now r h,
        calls_of-cleanup fresh calls k k now,
        length-in_window fresh now (calls_of calls k),
        beq_refl k,
      )

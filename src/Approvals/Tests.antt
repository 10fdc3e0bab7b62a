-- ===== src/Approvals/Tests.antt =====
-- One request for thread 7, and two commands.
use dev_bot.Base.Sets.{Distinct}
use dev_bot.Base.{ℕ, Bool, ◌↔◌, ◌∷◌, map, ◌≡◌, ◌≢◌, refl, true, none, some, []}
use dev_bot.Base.Codes.{codes}
use dev_bot.Base.Eq.{nat_eq}
use dev_bot.Base.Lists.{length, Among}
use dev_bot.Base.Dict
use dev_bot.Approvals.{
  Coordinator, initial, answered, future, create_future, create_request, expire, end_future,
  resolve, has_pending_request,
}
use dev_bot.Approvals.Steps.{Steps, stay, then_, requested, resolved, timed_out, answers}
use dev_bot.Approvals.Waiting.{Steps-answered}
use dev_bot.Approvals.Requests.{resolve-create_request, stale_timeout}
use dev_bot.Approvals.Risk.{is_part_of, is_high_risk_command}

abbrev empty : Coordinator
empty = initial [] []

abbrev asked : Coordinator
asked = create_request 7 "r1" "Bash" "rm -rf x" "cleanup" "t0" empty

abbrev approved : Coordinator
approved = (resolve 7 true "ann" "t1" asked).0

-- The request is made and answered, and then the wait for it ends by its timeout.
until_asked : Steps empty asked
until_asked = then_ (stay empty) (requested empty 7 "r1" "Bash" "rm -rf x" "cleanup" "t0")

abbrev until_expired : Steps empty (expire 7 0 "t2" approved)
until_expired =
    then_
      (then_ (then_ (stay empty) (requested empty 7 "r1" "Bash" "rm -rf x" "cleanup" "t0"))
        (resolved asked 7 true "ann" "t1"))
      (timed_out approved 7 0 "t2")

one_answer : answers until_expired ≡ (0, true) ∷ []
unfolding create_request create_future resolve future end_future Dict.get Dict.put
one_answer = refl

Steps-answered_example :
    ((n : ℕ) (b : Bool)
      → (future (expire 7 0 "t2" approved).futures n ≡ answered b)
        ↔ Among {A = ℕ × Bool} (n, b) (answers until_expired))
    × Distinct (map (λ a. a.0) (answers until_expired))
    × ((k n : ℕ) (b : Bool)
        → ¬ (
            (Dict.get (expire 7 0 "t2" approved).pending k ≡ some n)
            × (future (expire 7 0 "t2" approved).futures n ≡ answered b)))
Steps-answered_example = Steps-answered until_expired

resolve-create_request_example :
    (has_pending_request 7 asked ≡ true)
    × ((resolve 7 true "ann" "t1" asked).1 ≡ "resolved")
    × (future (resolve 7 true "ann" "t1" asked).0.futures 0 ≡ answered true)
    × (Dict.get (resolve 7 true "ann" "t1" asked).0.payloads 7
        ≡ some (record {
          run_id = "r1";
          tool_name = "Bash";
          input_text = "rm -rf x";
          reason = "cleanup";
          requested_at = "t0";
          status = "approved";
          expired_at = none;
          resolved_at = some "t1";
          resolved_by = some "ann";
        }))
resolve-create_request_example =
    resolve-create_request 7 true "r1" "Bash" "rm -rf x" "cleanup" "t0" "ann" "t1" empty

-- A second request of the thread, while the wait for the first goes on.
abbrev asked_again : Coordinator
asked_again = create_request 7 "r2" "Bash" "terraform apply" "deploy" "t1" asked

differ : 0 ≢ length asked.futures
unfolding create_request create_future
differ e = cc e

-- The wait for the first request times out, and an answer comes.
too_late :
    Steps (expire 7 0 "t2" asked_again) (resolve 7 true "ann" "t3" (expire 7 0 "t2" asked_again)).0
too_late =
    then_ (stay (expire 7 0 "t2" asked_again))
      (resolved (expire 7 0 "t2" asked_again) 7 true "ann" "t3")

stale_timeout_example :
    future
      (resolve 7 true "ann" "t3" (expire 7 0 "t2" asked_again)).0.futures
      (length asked.futures)
    ≢ answered true
stale_timeout_example =
    stale_timeout 7 0 "r2" "Bash" "terraform apply" "deploy" "t1" "t2" until_asked differ too_late
      true

force_is_high_risk : is_high_risk_command (λ s. s) (codes "git push --force") ≡ true
unfolding is_high_risk_command is_part_of
force_is_high_risk = refl

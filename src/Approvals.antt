-- ===== src/Approvals.antt =====
-- app/approvals.py: requests for approval, in the store and as futures that runs await, and the commands
-- that need one.
--
-- A future is a number, its state stands under that number in `futures`, so that two waits for one
-- request share it. The store's file `pending_approval.json` of a thread is the entry of `payloads`.
-- What `datetime.now` answers is an argument.
pub mod Futures
pub mod Steps
pub mod Answers
pub mod Pending
pub mod Waiting
pub mod Requests
mod Tests
pub mod Risk
use dev_bot.Base.{
  ℕ, String, Bool, true, false, not, ◌&&◌, ◌||◌, Option, none, some, List, [], ◌∷◌, if◌then◌else◌,
}
use dev_bot.Base.Eq.{nat_eq, string_eq, ◌==◌}
use dev_bot.Base.Lists.{length}
use dev_bot.Base.Dict
use dev_bot.Base.Dict.{Dict}

pub data Future : Type 0 where
  unanswered cancelled : Future
  answered : Bool → Future

-- The fields of the request, and those that are set at its end.
pub record Payload : Type 0 where
  pub run_id : String
  pub tool_name : String
  pub input_text : String
  pub reason : String
  pub requested_at : String
  pub status : String
  pub expired_at : Option String
  pub resolved_at : Option String
  pub resolved_by : Option String

pub record Coordinator : Type 0 where
  pub payloads : Dict ℕ Payload
  pub runtime_status : Dict ℕ String
  pub pending : Dict ℕ ℕ
  pub futures : List Future

-- A coordinator has no future yet; the store may hold the files of an earlier process.
abbrev pub initial : Dict ℕ Payload → Dict ℕ String → Coordinator
initial payloads runtime_status = record {
  payloads = payloads;
  runtime_status = runtime_status;
  pending = [];
  futures = [];
}

abbrev pub add_last : List Future → Future → List Future
add_last [] f = f ∷ []
add_last (g ∷ gs) f = g ∷ add_last gs f

-- The state of a future; one that does not exist counts as cancelled.
unfoldable pub future : List Future → ℕ → Future
future [] n = cancelled
future (f ∷ fs) Prim.Native.Nat.zero = f
future (f ∷ fs) (Prim.Native.Nat.suc n) = future fs n

-- `loop.create_future()`, kept in `_pending`
unfoldable pub create_future : ℕ → Coordinator → Coordinator
create_future thread_id s = record s {
  pending = Dict.put s.pending thread_id (length s.futures);
  futures = add_last s.futures unanswered;
}

unfoldable pub create_request :
    ℕ → String → String → String → String → String → Coordinator → Coordinator
create_request thread_id run_id tool_name input_text reason now s =
    create_future thread_id (record s {
      payloads = Dict.put s.payloads thread_id (record {
        run_id = run_id;
        tool_name = tool_name;
        input_text = input_text;
        reason = reason;
        requested_at = now;
        status = "pending";
        expired_at = none;
        resolved_at = none;
        resolved_by = none;
      });
      runtime_status = Dict.put s.runtime_status thread_id "awaiting_high_risk_approval";
    })

abbrev pub is_some {ℓ} : {A : Type ℓ} → Option A → Bool
is_some none = false
is_some (some a) = true

unfoldable pub register_restored_request : ℕ → Coordinator → Coordinator
register_restored_request thread_id s =
    if is_some (Dict.get s.pending thread_id) then s else create_future thread_id s

-- What ends an unanswered future leaves one that has ended as it is.
abbrev pub end_as : Future → Future → Future
end_as outcome unanswered = outcome
end_as outcome cancelled = cancelled
end_as outcome (answered b) = answered b

unfoldable pub end_future : List Future → ℕ → Future → List Future
end_future [] n outcome = []
end_future (f ∷ fs) Prim.Native.Nat.zero outcome = end_as outcome f ∷ fs
end_future (f ∷ fs) (Prim.Native.Nat.suc n) outcome = f ∷ end_future fs n outcome

abbrev pub resolved_payload : Bool → String → String → Payload → Payload
resolved_payload approved actor now p = record p {
  status = if approved then "approved" else "rejected";
  resolved_at = some now;
  resolved_by = some actor;
}

abbrev pub update : Dict ℕ Payload → ℕ → Option Payload → Dict ℕ Payload
update payloads thread_id none = payloads
update payloads thread_id (some p) = Dict.put payloads thread_id p

abbrev pub map_payload : (Payload → Payload) → Option Payload → Option Payload
map_payload f none = none
map_payload f (some p) = some (f p)

-- The timeout of a wait for the future `n`: `wait_for` cancels it, and the handler marks the request.
unfoldable pub expire : ℕ → ℕ → String → Coordinator → Coordinator
expire thread_id n now s = record s {
  futures = end_future s.futures n cancelled;
  payloads = update s.payloads thread_id (
      map_payload (λ p. record p { status = "expired"; expired_at = some now })
        (Dict.get s.payloads thread_id));
  pending = Dict.remove s.pending thread_id;
}

abbrev pub is_unanswered : Future → Bool
is_unanswered unanswered = true
is_unanswered _ = false

-- The end of `resolve`, behind the update of the file.
abbrev pub answer_future : ℕ → Bool → Option ℕ → Coordinator → Coordinator × String
answer_future thread_id approved none s = (s, "persisted_only")
answer_future thread_id approved (some n) s =
    if is_unanswered (future s.futures n)
    then (
      record s {
        futures = end_future s.futures n (answered approved);
        pending = Dict.remove s.pending thread_id;
      },
      "resolved",
    )
    else (record s { pending = Dict.remove s.pending thread_id }, "stale_future")

unfoldable pub resolve : ℕ → Bool → String → String → Coordinator → Coordinator × String
resolve thread_id approved actor now s =
    answer_future thread_id approved (Dict.get s.pending thread_id) (record s {
      payloads =
          update s.payloads thread_id
            (map_payload (resolved_payload approved actor now) (Dict.get s.payloads thread_id));
    })

abbrev pub is_pending : Option Payload → Bool
is_pending none = false
is_pending (some p) = p.status == "pending"

unfoldable pub has_pending_request : ℕ → Coordinator → Bool
has_pending_request thread_id s = is_pending (Dict.get s.payloads thread_id)

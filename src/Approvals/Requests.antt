-- ===== src/Approvals/Requests.antt =====
-- app/approvals.py, the life of one request: created, then answered or expired.
use dev_bot.Base.{
  ℕ, ◌<◌, String, ◌≡◌, ◌≢◌, refl, arith, inl, inr, Bool-cases, nat_beq, ap, ◌∙◌, Bool, true, none,
  some, if◌then◌else◌,
}
use dev_bot.Base.Eq.{nat_eq, string_eq}
use dev_bot.Base.Sets.{beq_refl}
use dev_bot.Base.Lists.{length}
use dev_bot.Base.Dict
use dev_bot.Base.Dict.{Dict}
use dev_bot.Approvals.{
  unanswered, cancelled, answered, Payload, Coordinator, initial, add_last, future, create_future,
  create_request, resolved_payload, expire, resolve, is_pending, has_pending_request,
}
use dev_bot.Approvals.Futures.{
  future-add_last, length-add_last, length-end_future, future-end_future, other-end_future,
}
use dev_bot.Approvals.Steps.{Steps}
use dev_bot.Approvals.Pending.{Steps-entries, IsLost, lost-unanswered}

get-put_same : {V : Type 0} (d : Dict ℕ V) (k : ℕ) (v : V) → Dict.get (Dict.put d k v) k ≡ some v
get-put_same d k v = rw (Dict.get-put d k k v) (rw (beq_refl k) refl)

resolve_waiting :
    (t n : ℕ) (b : Bool) (actor now : String) (p : Payload) (s : Coordinator)
    → Dict.get s.pending t ≡ some n
    → future s.futures n ≡ unanswered
    → Dict.get s.payloads t ≡ some p
    → ((resolve t b actor now s).1 ≡ "resolved")
      × (future (resolve t b actor now s).0.futures n ≡ answered b)
      × (Dict.get (resolve t b actor now s).0.payloads t ≡ some (resolved_payload b actor now p))
unfolding resolve
resolve_waiting t n b actor now p s h f g =
    rw (h, g, f)
      (
        refl,
        future-end_future s.futures n (answered b) f,
        get-put_same s.payloads t (resolved_payload b actor now p),
      )

-- A request is pending when it is created; the answer that comes next reaches the wait for it, and is
-- what the file then says.
pub resolve-create_request :
    (t : ℕ) (b : Bool) (run_id tool_name input_text reason now actor later : String)
    (s : Coordinator)
    → let created = create_request t run_id tool_name input_text reason now s in
      let answer = resolve t b actor later created in
      (has_pending_request t created ≡ true)
      × (answer.1 ≡ "resolved")
      × (future answer.0.futures (length s.futures) ≡ answered b)
      × (Dict.get answer.0.payloads t
          ≡ some (record {
            run_id = run_id;
            tool_name = tool_name;
            input_text = input_text;
            reason = reason;
            requested_at = now;
            status = if b then "approved" else "rejected";
            expired_at = none;
            resolved_at = some later;
            resolved_by = some actor;
          }))
unfolding has_pending_request create_request create_future
resolve-create_request t b run_id tool_name input_text reason now actor later s =
    let answer =
      resolve_waiting t (length s.futures) b actor later _
        (create_request t run_id tool_name input_text reason now s)
        (get-put_same s.pending t (length s.futures)) (future-add_last s.futures unanswered)
        (get-put_same s.payloads t _) in
    (ap is_pending (get-put_same s.payloads t _), answer.0, answer.1, answer.2)

still_open :
    (t n : ℕ) (run_id tool_name input_text reason now then_ : String) (s : Coordinator)
    → n ≢ length s.futures
    → future
        (expire t n then_ (create_request t run_id tool_name input_text reason now s)).futures
        (length s.futures)
      ≡ unanswered
unfolding expire create_request create_future
still_open t n run_id tool_name input_text reason now then_ s h =
    other-end_future (add_last s.futures unanswered) (length s.futures) n cancelled h
    ∙ future-add_last s.futures unanswered

IsLost-expire :
    (t n : ℕ) (run_id tool_name input_text reason now then_ : String) (s : Coordinator)
    → ((k m : ℕ) → Dict.get s.pending k ≡ some m → m < length s.futures)
    → IsLost
        (length s.futures)
        (expire t n then_ (create_request t run_id tool_name input_text reason now s))
unfolding expire create_request create_future
IsLost-expire t n run_id tool_name input_text reason now then_ s known = record {
  exists = omega (
    arith,
    length-end_future (add_last s.futures unanswered) n cancelled,
    length-add_last s.futures unanswered,
  );
  unknown = λ k h. elim (Bool-cases (nat_beq t k)) [
    | inl same ↦ cc (h, same, Dict.get-remove (Dict.put s.pending t (length s.futures)) t k)
    | inr other ↦
        let old : Dict.get s.pending k ≡ some (length s.futures) = ground (
          arith,
          h,
          other,
          Dict.get-remove (Dict.put s.pending t (length s.futures)) t k,
          Dict.get-put s.pending t k (length s.futures),
        ) in
        absurd (omega (arith, known k (length s.futures) old))
  ];
}

-- The timeout of a wait for an older future of the thread takes the newer request with it: whatever
-- operations and timeouts come later, in any order, no answer ever reaches the newer future.
pub stale_timeout :
    {payloads : Dict ℕ Payload} {runtime_status : Dict ℕ String} {s u : Coordinator} (t n : ℕ)
    (run_id tool_name input_text reason now then_ : String)
    → Steps (initial payloads runtime_status) s
    → n ≢ length s.futures
    → Steps (expire t n then_ (create_request t run_id tool_name input_text reason now s)) u
    → (b : Bool) → future u.futures (length s.futures) ≢ answered b
stale_timeout {s = s} t n run_id tool_name input_text reason now then_ before older after =
    lost-unanswered (length s.futures) after
      (IsLost-expire t n run_id tool_name input_text reason now then_ s (Steps-entries before))
      (λ b h. cc (h, still_open t n run_id tool_name input_text reason now then_ s older))

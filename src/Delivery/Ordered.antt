-- ===== src/Delivery/Ordered.antt =====
-- app/pipeline.py: what has to come before a call of a run, and the rules by which it is carried along.
use dev_bot.Base.{
  ◌≡◌, refl, sym, subst, inl, inr, String, Bool, true, false, Option, none, some, List, [], ◌∷◌,
}
use dev_bot.Base.Lists.{All, Among}
use dev_bot.Base.Result.{Result, ok, err}
use dev_bot.Base.Action.{◌>>=◌, go_on}
use dev_bot.Candidates.Scoring.{CandidateExecutionResult}
use dev_bot.Base.Eq.{string_eq}
use dev_bot.Base.Sets.{contains}
use dev_bot.ProofOfWork.{required_artifacts}
use dev_bot.Delivery.{run_artifacts}
use dev_bot.Delivery.Effects.{
  AttemptStatus, Effect, Trace, World, Run, outcome_of, perform, performs, caught, and_go_on,
}

-- A candidate's result that succeeded, in the workspace with this branch, where the artifacts that the workflow
-- requires are among those that the run counts as present.
pub record IsDeliverable (w : World) (workspace branch : String) : Type 0 where
  pub result : CandidateExecutionResult
  pub among : Among result w.candidate_results
  pub succeeded : result.success ≡ true
  pub its_workspace : (w.workspace_of result).workspace ≡ workspace
  pub its_branch : (w.workspace_of result).branch_name ≡ branch
  pub proved : All (λ item. contains run_artifacts item ≡ true) (required_artifacts w.workflow)

pub record PushedBefore (head : String) (s : Trace) : Type 0 where
  pub workspace : String
  pub bootstrap : String
  pub among : Among (Effect.push_branch workspace head bootstrap) s

pub record CreatedBefore (s : Trace) : Type 0 where
  pub head : String
  pub base : String
  pub among : Among (Effect.create_pull_request head base) s

-- What has to be in the trace when a call is made.
abbrev pub Allowed : World → Effect → Trace → Type 0
Allowed w (Effect.push_branch workspace branch bootstrap) s =
    IsDeliverable w workspace branch × Among (Effect.git_commit workspace) s
Allowed w (Effect.create_pull_request head base) s = PushedBefore head s
Allowed w Effect.ready_pull_request s = CreatedBefore s
Allowed w (Effect.write_manifest AttemptStatus.completed id) s = Among Effect.ready_pull_request s
Allowed w (Effect.update_pull_request status number url) s = Among Effect.ready_pull_request s
Allowed w e s = Unit

abbrev pub Ordered : World → Trace → Type 0
Ordered w [] = Unit
Ordered w (e ∷ s) = Allowed w e s × Ordered w s

-- A trace that goes on from another one in order.
pub record GoesOn (w : World) (s s' : Trace) : Type 0 where
  pub ordered : Ordered w s'
  pub keeps : (e : Effect) → Among e s → Among e s'

pub data Ends {A : Type 0} (w : World) (s : Trace) (Q : A → Trace → Type 0)
    : Result String A × Trace → Type 0 where
  returned : {a : A} {s' : Trace} → GoesOn w s s' → Q a s' → Ends w s Q (ok a, s')
  raised : {why : String} {s' : Trace} → GoesOn w s s' → Ends w s Q (err why, s')

abbrev pub NothingMore : {A : Type 0} → A → Trace → Type 0
NothingMore a s = Unit

pub GoesOn-refl : {w : World} {s : Trace} → Ordered w s → GoesOn w s s
GoesOn-refl h = record { ordered = h; keeps = λ e m. m }

pub GoesOn-trans : {w : World} {s t u : Trace} → GoesOn w s t → GoesOn w t u → GoesOn w s u
GoesOn-trans p q = record { ordered = q.ordered; keeps = λ e m. q.keeps e (p.keeps e m) }

Ends-later :
    {A : Type 0} {w : World} {s t : Trace} {Q : A → Trace → Type 0} {r : Result String A × Trace}
    → GoesOn w s t
    → Ends w t Q r
    → Ends w s Q r
Ends-later p (returned q h) = returned (GoesOn-trans p q) h
Ends-later p (raised q) = raised (GoesOn-trans p q)

go_on-Ends :
    {A B : Type 0} {w : World} {s : Trace} {Q : A → Trace → Type 0} {P : B → Trace → Type 0}
    {done : Result String A × Trace} (next : A → Run B)
    → Ends w s Q done
    → ((a : A) (t : Trace) → GoesOn w s t → Q a t → Ends w t P (next a t))
    → Ends w s P (go_on next done)
go_on-Ends next (returned p q) h = Ends-later p (h _ _ p q)
go_on-Ends next (raised p) h = raised p

pub Ends-bind :
    {A B : Type 0} {w : World} {Q : A → Trace → Type 0} {P : B → Trace → Type 0} (first : Run A)
    (next : A → Run B) (s : Trace)
    → Ends w s Q (first s)
    → ((a : A) (t : Trace) → GoesOn w s t → Q a t → Ends w t P (next a t))
    → Ends w s P ((first >>= next) s)
Ends-bind first next s h k = go_on-Ends next h k

abbrev Passed : Effect → Unit {0} → Trace → Type 0
Passed e a t = Among e t

outcome-Ends :
    {w : World} (e : Effect) (s : Trace) (o : Option String)
    → Ordered w s
    → Allowed w e s
    → Ends w s (Passed e) (outcome_of o, e ∷ s)
outcome-Ends e s none h a = returned (record { ordered = (a, h); keeps = λ x m. inr m }) (inl refl)
outcome-Ends e s (some why) h a = raised (record { ordered = (a, h); keeps = λ x m. inr m })

-- The calls are allowed wherever the trace goes on from this one.
abbrev pub AllAllowed : World → List Effect → Trace → Type 0
AllAllowed w [] s = Unit
AllAllowed w (e ∷ es) s = ((t : Trace) → GoesOn w s t → Allowed w e t) × AllAllowed w es s

abbrev AllPassed : List Effect → Unit {0} → Trace → Type 0
AllPassed es a t = All (λ e. Among e t) es

AllAllowed-later :
    {w : World} {s t : Trace} (es : List Effect)
    → GoesOn w s t
    → AllAllowed w es s
    → AllAllowed w es t
AllAllowed-later [] p h = tt
AllAllowed-later (e ∷ es) p h = (λ u q. h.0 u (GoesOn-trans p q), AllAllowed-later es p h.1)

with_passed :
    {w : World} {s : Trace} (e : Effect) (es : List Effect) {r : Result String (Unit {0}) × Trace}
    → Among e s
    → Ends w s (AllPassed es) r
    → Ends w s (AllPassed (e ∷ es)) r
with_passed e es m (returned p q) = returned p (p.keeps e m, q)
with_passed e es m (raised p) = raised p

pub Ends-performs :
    (w : World) (es : List Effect) (s : Trace)
    → Ordered w s
    → AllAllowed w es s
    → Ends w s (AllPassed es) (performs w es s)
unfolding performs perform
Ends-performs w [] s h a = returned (GoesOn-refl h) tt
Ends-performs w (e ∷ es) s h a =
    Ends-bind (perform w e) (λ _. performs w es) s
      (outcome-Ends e s (w.fails e s) h (a.0 s (GoesOn-refl h)))
      λ _ t p m. with_passed e es m (Ends-performs w es t p.ordered (AllAllowed-later es p a.1))

-- Calls that nothing has to come before.
abbrev pub is_free : Effect → Bool
is_free (Effect.push_branch workspace branch bootstrap) = false
is_free (Effect.create_pull_request head base) = false
is_free Effect.ready_pull_request = false
is_free (Effect.write_manifest AttemptStatus.completed id) = false
is_free (Effect.update_pull_request status number url) = false
is_free e = true

free-Allowed : (w : World) (e : Effect) (s : Trace) → is_free e ≡ true → Allowed w e s
free-Allowed w (Effect.push_branch workspace branch bootstrap) s h = absurd (cc h)
free-Allowed w (Effect.create_pull_request head base) s h = absurd (cc h)
free-Allowed w Effect.ready_pull_request s h = absurd (cc h)
free-Allowed w (Effect.write_manifest AttemptStatus.completed id) s h = absurd (cc h)
free-Allowed w (Effect.update_pull_request status number url) s h = absurd (cc h)
free-Allowed w e s h = tt

abbrev pub IsFree : Effect → Type 0
IsFree e = is_free e ≡ true

abbrev pub AllFree : List Effect → Type 0
AllFree = All IsFree

pub AllAllowed-of_free : (w : World) (es : List Effect) (s : Trace) → AllFree es → AllAllowed w es s
AllAllowed-of_free w [] s h = tt
AllAllowed-of_free w (e ∷ es) s h = (λ t p. free-Allowed w e t h.0, AllAllowed-of_free w es s h.1)

pub Ends-forget :
    {A : Type 0} {w : World} {s : Trace} {Q : A → Trace → Type 0} {r : Result String A × Trace}
    → Ends w s Q r
    → Ends w s NothingMore r
Ends-forget (returned p q) = returned p tt
Ends-forget (raised p) = raised p

pub Ends-free :
    (w : World) (es : List Effect) (s : Trace)
    → Ordered w s
    → AllFree es
    → Ends w s NothingMore (performs w es s)
Ends-free w es s h f = Ends-forget (Ends-performs w es s h (AllAllowed-of_free w es s f))

-- The calls of an action that is caught stand, and it returns.
pub Ends-caught :
    {w : World} (call : Run (Unit {0})) (s : Trace)
    → Ends w s NothingMore (call s)
    → Ends w s NothingMore (caught call s)
unfolding caught
Ends-caught {w} call s h = returns h
  where
    returns :
        {r : Result String (Unit {0}) × Trace}
        → Ends w s NothingMore r
        → Ends w s NothingMore (and_go_on r)
    returns (returned p q) = returned p tt
    returns (raised p) = returned p tt

-- What came before a call in a trace in order.
pub Allowed-of_Among :
    (w : World) (e : Effect) (s : Trace)
    → Ordered w s
    → Among e s
    → (t : Trace) × Allowed w e t × ((x : Effect) → Among x t → Among x s)
Allowed-of_Among w e [] h m = absurd m
Allowed-of_Among w e (x ∷ s) h (inl same) =
    (s, subst (λ y. Allowed w y s) (sym same) h.0, λ y n. inr n)
Allowed-of_Among w e (x ∷ s) h (inr m) =
    let (t, a, sub) = Allowed-of_Among w e s h.1 m in (t, a, λ y n. inr (sub y n))

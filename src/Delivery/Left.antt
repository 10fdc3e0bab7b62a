-- ===== src/Delivery/Left.antt =====
-- app/pipeline.py: what a run leaves behind, as its calls are made.
use dev_bot.Base.{
  ℕ, suc, ◌≡◌, refl, ap, subst, ◌∙◌, String, Bool, true, false, Option, none, some, List, [], ◌∷◌,
}
use dev_bot.Base.Eq.{string_eq}
use dev_bot.Base.Lists.{All}
use dev_bot.Base.Result.{Result, ok, err}
use dev_bot.Base.Action.{◌>>=◌, pure, go_on}
use dev_bot.Delivery.Effects.{
  AttemptStatus, Effect, Trace, World, Run, performs, perform, lift, caught, outcome_of,
}

-- What a run has left: the issue's status, the attempt's mark with the winner, and the pushes and pull requests
-- that were made.
pub record Left : Type 0 where
  pub status : String
  pub attempt : Option AttemptStatus
  pub winner : Option String
  pub pushes : ℕ
  pub pull_requests : ℕ

abbrev pub note : Left → Effect → Left
note v (Effect.update_status s) = record v { status = s }
note v (Effect.update_pull_request s number url) = record v { status = s }
note v (Effect.write_manifest mark id) = record v { attempt = some mark; winner = id }
note v (Effect.push_branch workspace branch bootstrap) = record v { pushes = suc v.pushes }
note v (Effect.create_pull_request head base) = record v { pull_requests = suc v.pull_requests }
note v e = v

abbrev pub left_by : Trace → Left
left_by [] = record { status = ""; attempt = none; winner = none; pushes = 0; pull_requests = 0 }
left_by (e ∷ s) = note (left_by s) e

abbrev pub notes : Left → List Effect → Left
notes v [] = v
notes v (e ∷ es) = notes (note v e) es

abbrev pub NothingFails : World → Type 0
NothingFails w = (e : Effect) (s : Trace) → w.fails e s ≡ none

-- A call that returns a value and turns what is left from one into the other.
pub record Leaves {A : Type 0} (call : Run A) (a : A) (v v' : Left) : Type 0 where
  pub from : (s : Trace) → left_by s ≡ v → ((call s).0 ≡ ok a) × (left_by (call s).1 ≡ v')

pub Leaves-bind :
    {A B : Type 0} (first : Run A) (next : A → Run B) {a : A} {b : B} {v u t : Left}
    → Leaves first a v u
    → Leaves (next a) b u t
    → Leaves (first >>= next) b v t
Leaves-bind {A} {B} first next {a} {b} {v} {u} {t} p q = record {
  from = λ s e. go (first s) (p.from s e);
}
  where
    go :
        (done : Result String A × Trace)
        → (done.0 ≡ ok a) × (left_by done.1 ≡ u)
        → ((go_on next done).0 ≡ ok b) × (left_by (go_on next done).1 ≡ t)
    go (ok x, s) h =
        let same : a ≡ x = cc (h.0) in
        subst (λ y. ((next y s).0 ≡ ok b) × (left_by (next y s).1 ≡ t)) same (q.from s h.1)
    go (err why, s) h = absurd (cc (h.0))

pub Leaves-pure : {A : Type 0} (a : A) (v : Left) → Leaves (pure a) a v v
Leaves-pure a v = record { from = λ s e. (refl, e) }

pub Leaves-lift :
    {A : Type 0} (r : Result String A) (a : A) (v : Left) → r ≡ ok a → Leaves (lift r) a v v
Leaves-lift r a v h = record { from = λ s e. (h, e) }

-- Calls that leave nothing of this behind.
abbrev pub is_quiet : Effect → Bool
is_quiet (Effect.update_status s) = false
is_quiet (Effect.update_pull_request s number url) = false
is_quiet (Effect.write_manifest mark id) = false
is_quiet (Effect.push_branch workspace branch bootstrap) = false
is_quiet (Effect.create_pull_request head base) = false
is_quiet e = true

note_quiet : (v : Left) (e : Effect) → is_quiet e ≡ true → note v e ≡ v
note_quiet v (Effect.update_status s) h = absurd (cc h)
note_quiet v (Effect.update_pull_request s number url) h = absurd (cc h)
note_quiet v (Effect.write_manifest mark id) h = absurd (cc h)
note_quiet v (Effect.push_branch workspace branch bootstrap) h = absurd (cc h)
note_quiet v (Effect.create_pull_request head base) h = absurd (cc h)
note_quiet v e h = refl

abbrev pub IsQuiet : Effect → Type 0
IsQuiet e = is_quiet e ≡ true

abbrev pub AllQuiet : List Effect → Type 0
AllQuiet = All IsQuiet

notes_quiet : (v : Left) (es : List Effect) → AllQuiet es → notes v es ≡ v
notes_quiet v [] h = refl
notes_quiet v (e ∷ es) h = ap (λ u. notes u es) (note_quiet v e h.0) ∙ notes_quiet v es h.1

module _ (w : World) (calm : NothingFails w) where
  pub performs-Leaves : (es : List Effect) (v : Left) → Leaves (performs w es) tt v (notes v es)
  unfolding performs perform
  performs-Leaves [] v = Leaves-pure tt v
  performs-Leaves (e ∷ es) v =
      Leaves-bind (perform w e) (λ _. performs w es)
        (record { from = λ s h. (ap outcome_of (calm e s), ap (λ u. note u e) h) })
        (performs-Leaves es (note v e))

  pub quiet : (es : List Effect) (v : Left) → AllQuiet es → Leaves (performs w es) tt v v
  quiet es v h = subst (Leaves (performs w es) tt v) (notes_quiet v es h) (performs-Leaves es v)

  pub caught-Leaves :
      (call : Run (Unit {0})) (v u : Left) → Leaves call tt v u → Leaves (caught call) tt v u
  unfolding caught
  caught-Leaves call v u h = record { from = λ s e. (refl, (h.from s e).1) }

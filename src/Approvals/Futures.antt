-- ===== src/Approvals/Futures.antt =====
-- app/approvals.py: the states of the futures, when one is created or ended.
use Prim.Native.Nat.{zero, suc}
use dev_bot.Base.{ℕ, ◌≡◌, ◌≢◌, refl, ap, Bool, List, [], ◌∷◌}
use dev_bot.Base.Lists.{length}
use dev_bot.Approvals.{
  Future, unanswered, cancelled, answered, add_last, future, end_as, end_future,
}

pub future-add_last : (fs : List Future) (f : Future) → future (add_last fs f) (length fs) ≡ f
unfolding future
future-add_last [] f = refl
future-add_last (g ∷ fs) f = future-add_last fs f

pub length-add_last : (fs : List Future) (f : Future) → length (add_last fs f) ≡ suc (length fs)
length-add_last [] f = refl
length-add_last (g ∷ fs) f = ap suc (length-add_last fs f)

pub length-end_future :
    (fs : List Future) (n : ℕ) (outcome : Future) → length (end_future fs n outcome) ≡ length fs
unfolding end_future
length-end_future [] n outcome = refl
length-end_future (f ∷ fs) zero outcome = refl
length-end_future (f ∷ fs) (suc n) outcome = ap suc (length-end_future fs n outcome)

pub future-end_future :
    (fs : List Future) (n : ℕ) (outcome : Future)
    → future fs n ≡ unanswered
    → future (end_future fs n outcome) n ≡ outcome
unfolding future end_future
future-end_future [] n outcome h = absurd (cc h)
future-end_future (f ∷ fs) zero outcome h = ap (end_as outcome) h
future-end_future (f ∷ fs) (suc n) outcome h = future-end_future fs n outcome h

-- The end of one future leaves the others.
pub other-end_future :
    (fs : List Future) (n m : ℕ) (outcome : Future)
    → m ≢ n
    → future (end_future fs m outcome) n ≡ future fs n
unfolding future end_future
other-end_future [] n m outcome h = refl
other-end_future (f ∷ fs) zero zero outcome h = absurd (h refl)
other-end_future (f ∷ fs) zero (suc m) outcome h = refl
other-end_future (f ∷ fs) (suc n) zero outcome h = refl
other-end_future (f ∷ fs) (suc n) (suc m) outcome h =
    other-end_future fs n m outcome (λ e. h (ap suc e))

-- A future that was answered keeps its answer, whichever future ends.
pub kept_at-end_future :
    (fs : List Future) (n m : ℕ) (outcome : Future) (b : Bool)
    → future fs n ≡ answered b
    → future (end_future fs m outcome) n ≡ answered b
unfolding future end_future
kept_at-end_future [] n m outcome b h = absurd (cc h)
kept_at-end_future (f ∷ fs) zero zero outcome b h = ap (end_as outcome) h
kept_at-end_future (f ∷ fs) zero (suc m) outcome b h = h
kept_at-end_future (f ∷ fs) (suc n) zero outcome b h = h
kept_at-end_future (f ∷ fs) (suc n) (suc m) outcome b h = kept_at-end_future fs n m outcome b h

pub kept_at-add_last :
    (fs : List Future) (n : ℕ) (f : Future) (b : Bool)
    → future fs n ≡ answered b
    → future (add_last fs f) n ≡ answered b
unfolding future
kept_at-add_last [] n f b h = absurd (cc h)
kept_at-add_last (g ∷ fs) zero f b h = h
kept_at-add_last (g ∷ fs) (suc n) f b h = kept_at-add_last fs n f b h

answered-end_as : (f : Future) (b : Bool) → end_as cancelled f ≡ answered b → f ≡ answered b
answered-end_as unanswered b h = absurd (cc h)
answered-end_as cancelled b h = absurd (cc h)
answered-end_as (answered c) b h = h

-- A cancellation answers no future.
pub answered_before-cancel :
    (fs : List Future) (n m : ℕ) (b : Bool)
    → future (end_future fs m cancelled) n ≡ answered b
    → future fs n ≡ answered b
unfolding future end_future
answered_before-cancel [] n m b h = h
answered_before-cancel (f ∷ fs) zero zero b h = answered-end_as f b h
answered_before-cancel (f ∷ fs) zero (suc m) b h = h
answered_before-cancel (f ∷ fs) (suc n) zero b h = h
answered_before-cancel (f ∷ fs) (suc n) (suc m) b h = answered_before-cancel fs n m b h

-- A new future is not answered.
pub answered_before-add_last :
    (fs : List Future) (n : ℕ) (b : Bool)
    → future (add_last fs unanswered) n ≡ answered b
    → future fs n ≡ answered b
unfolding future
answered_before-add_last [] zero b h = absurd (cc h)
answered_before-add_last [] (suc n) b h = h
answered_before-add_last (g ∷ fs) zero b h = h
answered_before-add_last (g ∷ fs) (suc n) b h = answered_before-add_last fs n b h

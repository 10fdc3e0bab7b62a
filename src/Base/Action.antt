-- ===== src/Base/Action.antt =====
-- A method call on an object: its state comes back after a raise too, since what was written stays
-- written.
use mathlib.Core.Bool.{Bool}
use mathlib.Core.Option.{Option, none, some}
use dev_bot.Base.Tests.{if◌then◌else◌}
use dev_bot.Base.Result.{Result, ok, err}

abbrev pub Action {ℓ} : Type 0 → Type 0 → Type ℓ → Type ℓ
Action S E A = S → Result E A × S

module _ {ℓ} {S E : Type 0} {A : Type ℓ} where
  abbrev pub pure : A → Action S E A
  pure a s = (ok a, s)

  abbrev pub raise : E → Action S E A
  raise e s = (err e, s)

  abbrev pub gets : (S → A) → Action S E A
  gets f s = (ok (f s), s)

  abbrev pub or_raise : Option A → E → Action S E A
  or_raise none e = raise e
  or_raise (some a) _ = pure a

abbrev pub go_on {ℓ κ} :
    {S E : Type 0} {A : Type ℓ} {B : Type κ} → (A → Action S E B) → Result E A × S → Result E B × S
go_on next (ok a, s) = next a s
go_on next (err e, s) = (err e, s)

infixl 5 ◌>>=◌ ◌>>◌
abbrev pub ◌>>=◌ {ℓ κ} :
    {S E : Type 0} {A : Type ℓ} {B : Type κ} → Action S E A → (A → Action S E B) → Action S E B
◌>>=◌ first next s = go_on next (first s)

abbrev pub ◌>>◌ {ℓ κ} :
    {S E : Type 0} {A : Type ℓ} {B : Type κ} → Action S E A → Action S E B → Action S E B
first >> second = first >>= λ _. second

abbrev pub raise_if : {S E : Type 0} → Bool → E → Action S E (Unit {0})
raise_if test e s = (if test then err e else ok tt, s)

abbrev pub modify : {S E : Type 0} → (S → S) → Action S E (Unit {0})
modify f s = (ok tt, f s)

-- A property of the state that a call keeps, whether it returns or raises.
abbrev pub Keeps {ℓ} : {S E : Type 0} {A : Type ℓ} → (S → Type 0) → Action S E A → Type 0
Keeps {S = S} P call = (s : S) → P s → P (call s).1

module _ {ℓ κ} {S E : Type 0} {A : Type ℓ} {B : Type κ} (P : S → Type 0) where
  pub go_on-Keeps :
      (next : A → Action S E B) (done : Result E A × S)
      → ((a : A) → Keeps P (next a))
      → P done.1
      → P (go_on next done).1
  go_on-Keeps next (ok a, s) keeps h = keeps a s h
  go_on-Keeps next (err e, s) keeps h = h

  pub >>=-Keeps :
      (first : Action S E A) (next : A → Action S E B)
      → Keeps P first
      → ((a : A) → Keeps P (next a))
      → Keeps P (first >>= next)
  >>=-Keeps first next keeps keeps_next s h = go_on-Keeps next (first s) keeps_next (keeps s h)

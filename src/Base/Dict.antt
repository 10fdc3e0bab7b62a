-- ===== src/Base/Dict.antt =====
-- Python's `dict` as an association list in the order of insertion.
use Prim.Native.Nat.{◌+◌, ◌≤◌}
use mathlib.Core.Path.{◌≡◌, refl, sym, ap, subst}
use mathlib.Core.Logic.{inl, inr}
use mathlib.Core.Bool.{true, false}
use mathlib.Core.Option.{Option, none, some}
use mathlib.Core.List.{List, [], ◌∷◌, ◌++◌}
use native.Mathlib.Omega.{arith}
use dev_bot.Base.Tests.{if◌then◌else◌, Bool-cases}
use dev_bot.Base.Lists.{length}
use dev_bot.Base.Eq.{Eq, ◌==◌}
use dev_bot.Base.Sets.{contains, add, discard}

abbrev pub Dict {ℓ κ} : Type ℓ → Type κ → Type (ℓ ⊔ κ)
Dict K V = List (K × V)

module _ {ℓ κ} {K : Type ℓ} {V : Type κ} where
  abbrev pub keys : Dict K V → List K
  keys [] = []
  keys ((k, v) ∷ d) = k ∷ keys d

  pub length-keys : (d : Dict K V) → length (keys d) ≡ length d
  length-keys [] = refl
  length-keys ((k, v) ∷ d) = omega (arith, length-keys d)

module _ {ℓ κ} {K : Type ℓ} {V : Type κ} ⦃e : Eq K⦄ where
  -- d.get(k)
  unfoldable pub get : Dict K V → K → Option V
  get [] k = none
  get ((j, v) ∷ d) k = if j == k then some v else get d k

  -- d[k] = v: an old key keeps its place
  unfoldable pub put : Dict K V → K → V → Dict K V
  put [] k v = (k, v) ∷ []
  put ((j, w) ∷ d) k v = let rest = put d k v in if j == k then (j, v) ∷ d else (j, w) ∷ rest

  -- d.pop(k, None)
  unfoldable pub remove : Dict K V → K → Dict K V
  remove [] k = []
  remove ((j, v) ∷ d) k = let rest = remove d k in if j == k then rest else (j, v) ∷ rest

  pub get-put :
      (d : Dict K V) (k j : K) (v : V) → get (put d k v) j ≡ (if k == j then some v else get d j)
  unfolding get put
  get-put [] k j v = refl
  get-put ((i, w) ∷ d) k j v =
      ground (arith, get-put d k j v, e.equal_iff i k, e.equal_iff i j, e.equal_iff k j)

  pub get-remove :
      (d : Dict K V) (k j : K) → get (remove d k) j ≡ (if k == j then none else get d j)
  unfolding get remove
  get-remove [] k j = ground arith
  get-remove ((i, w) ∷ d) k j =
      ground (arith, get-remove d k j, e.equal_iff i k, e.equal_iff i j, e.equal_iff k j)

  -- A key that is new comes last.
  pub put_of_new :
      (d : Dict K V) (k : K) (v : V) → contains (keys d) k ≡ false → put d k v ≡ d ++ (k, v) ∷ []
  unfolding put contains
  put_of_new [] k v h = refl
  put_of_new ((j, w) ∷ d) k v h = ground (arith, put_of_new d k v)

  pub keys-remove : (d : Dict K V) (k : K) → keys (remove d k) ≡ discard (keys d) k
  unfolding remove discard
  keys-remove [] k = refl
  keys-remove ((j, v) ∷ d) k = ground (arith, keys-remove d k)

  pub keys-put : (d : Dict K V) (k : K) (v : V) → keys (put d k v) ≡ add (keys d) k
  unfolding put add contains
  keys-put [] k v = refl
  keys-put ((j, w) ∷ d) k v = ground (arith, keys-put d k v)

  pub get_of_absent : (d : Dict K V) (k : K) → contains (keys d) k ≡ false → get d k ≡ none
  unfolding get contains
  get_of_absent [] k h = refl
  get_of_absent ((j, v) ∷ d) k h = ground (arith, get_of_absent d k)

  pub contains_of_get :
      (d : Dict K V) (k : K) (v : V) → get d k ≡ some v → contains (keys d) k ≡ true
  unfolding get contains
  contains_of_get [] k v h = cc
  contains_of_get ((j, w) ∷ d) k v h = ground (arith, contains_of_get d k v)

  pub keys-put_old :
      (d : Dict K V) (k : K) (v : V) → contains (keys d) k ≡ true → keys (put d k v) ≡ keys d
  unfolding add
  keys-put_old d k v h = rw (keys-put, h)

  pub length-put_old :
      (d : Dict K V) (k : K) (v : V) → contains (keys d) k ≡ true → length (put d k v) ≡ length d
  length-put_old d k v h =
      omega (arith, length-keys (put d k v), length-keys d, ap length (keys-put_old d k v h))

  pub length-remove : (d : Dict K V) (k : K) → length (remove d k) ≤ length d
  unfolding remove
  length-remove [] k = omega arith
  length-remove ((j, v) ∷ d) k = ground (arith, length-remove d k)

  pub length-put : (d : Dict K V) (k : K) (v : V) → length (put d k v) ≤ length d + 1
  unfolding put
  length-put [] k v = omega arith
  length-put ((j, w) ∷ d) k v = ground (arith, length-put d k v)

  -- A statement about every entry.
  abbrev pub Entries {μ} : (K → V → Type μ) → Dict K V → Type μ
  Entries P [] = Unit
  Entries P ((k, v) ∷ d) = P k v × Entries P d

  pub Entries-put {μ} :
      (P : K → V → Type μ) (d : Dict K V) (k : K) (v : V)
      → Entries P d
      → P k v
      → Entries P (put d k v)
  unfolding put
  Entries-put P [] k v h p = (p, tt)
  Entries-put P ((j, w) ∷ d) k v h p = elim (Bool-cases (j == k)) [
    | inl same ↦ rw same (subst (λ i. P i v) (sym ((e.equal_iff j k).0 same)) p, h.1)
    | inr other ↦ rw other (h.0, Entries-put P d k v h.1 p)
  ]

  pub Entries-remove {μ} :
      (P : K → V → Type μ) (d : Dict K V) (k : K) → Entries P d → Entries P (remove d k)
  unfolding remove
  Entries-remove P [] k h = h
  Entries-remove P ((j, w) ∷ d) k h = elim (Bool-cases (j == k)) [
    | inl same ↦ rw same (Entries-remove P d k h.1)
    | inr other ↦ rw other (h.0, Entries-remove P d k h.1)
  ]

  pub Entries-get {μ} :
      (P : K → V → Type μ) (d : Dict K V) (k : K) (v : V) → Entries P d → get d k ≡ some v → P k v
  unfolding get
  Entries-get P [] k v h g = absurd (cc g)
  Entries-get P ((j, w) ∷ d) k v h g = elim (Bool-cases (j == k)) [
    | inl same ↦
        let found : w ≡ v = ground (arith, same) in
        subst (λ i. P i v) ((e.equal_iff j k).0 same) (subst (P j) found h.0)
    | inr other ↦ Entries-get P d k v h.1 (ground (arith, other))
  ]

  pub Entries-map {μ ν} :
      (P : K → V → Type μ) (Q : K → V → Type ν) (d : Dict K V)
      → ((k : K) (v : V) → P k v → Q k v)
      → Entries P d
      → Entries Q d
  Entries-map P Q [] f h = tt
  Entries-map P Q ((k, v) ∷ d) f h = (f k v h.0, Entries-map P Q d f h.1)

pub ruleset dict_laws = (get-put, get-remove)

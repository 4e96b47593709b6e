-- ===== src/Prelude/Maps.antt =====
-- `std::unordered_map` as an association list: the order of the list is the order of iteration,
-- which the C++ standard leaves open, so a theorem about every list is one about every order.
use mathlib.Core.Path.{◌≡◌, refl}
use mathlib.Core.Bool.{Bool, true, false}
use mathlib.Core.List.{List, [], ◌∷◌}
use mathlib.Core.Option.{Option, none, some}
use native.Mathlib.Omega.{arith}
use mathlib.Core.Logic.{inl, inr}
use mathlib.Core.Path.{ap}
use demeter.Prelude.Tests.{if◌then◌else◌, Bool-cases, Option-cases}
use demeter.Prelude.Equality.{Eq, ◌==◌}

abbrev pub Map {ℓ κ} : Type ℓ → Type κ → Type (ℓ ⊔ κ)
Map K V = List (K × V)

-- `m.find(k) != m.end()`, of the element found.
abbrev pub is_some {ℓ} : {A : Type ℓ} → Option A → Bool
is_some none = false
is_some (some a) = true

abbrev pub or_default {ℓ} : {A : Type ℓ} → A → Option A → A
or_default d none = d
or_default d (some a) = a

module _ {ℓ κ} {K : Type ℓ} {V : Type κ} ⦃e : Eq K⦄ where
  -- `m.find(k)`
  unfoldable pub lookup : K → Map K V → Option V
  lookup k [] = none
  lookup k ((j, v) ∷ m) = if j == k then some v else lookup k m

  -- `m[k] = v`
  unfoldable pub insert : K → V → Map K V → Map K V
  insert k v [] = (k, v) ∷ []
  insert k v ((j, w) ∷ m) = if j == k then (j, v) ∷ m else (j, w) ∷ insert k v m

  -- `m.erase(k)`
  unfoldable pub erase : K → Map K V → Map K V
  erase k [] = []
  erase k ((j, w) ∷ m) = if j == k then erase k m else (j, w) ∷ erase k m

  -- `m[k] = f(m[k])`, where `d` is the default value that `operator[]` creates
  unfoldable pub update : K → V → (V → V) → Map K V → Map K V
  unfolding lookup insert
  update k d f m = insert k (f (or_default d (lookup k m))) m

  pub lookup-insert :
      (k i : K) (v : V) (m : Map K V)
      → lookup i (insert k v m) ≡ (if k == i then some v else lookup i m)
  unfolding lookup insert
  lookup-insert k i v [] = refl
  lookup-insert k i v ((j, w) ∷ m) =
      ground (arith, lookup-insert k i v m, e.same_iff j k, e.same_iff j i, e.same_iff k i)

  pub lookup-erase :
      (k j : K) (m : Map K V) → lookup j (erase k m) ≡ (if k == j then none else lookup j m)
  unfolding lookup erase
  lookup-erase k j [] = ground arith
  lookup-erase k j ((i, w) ∷ m) =
      ground (arith, e.same_iff k j, e.same_iff i k, e.same_iff i j, lookup-erase k j m)

  pub lookup-update :
      (k j : K) (d : V) (f : V → V) (m : Map K V)
      → lookup j (update k d f m)
        ≡ (if k == j then some (f (or_default d (lookup k m))) else lookup j m)
  unfolding update
  lookup-update k j d f m = lookup-insert k j (f (or_default d (lookup k m))) m

  -- To read an entry that is there leaves the map's content alone.
  pub lookup-touch :
      (k j : K) (d : V) (m : Map K V)
      → is_some (lookup k m) ≡ true
      → lookup j (update k d (λ v. v) m) ≡ lookup j m
  lookup-touch k j d m h = elim (Option-cases (lookup k m)) [
    | inl missing ↦ absurd (ground (arith, missing))
    | inr (v, found) ↦
        rw (lookup-update k j d (λ v. v) m, found)
          (elim (Bool-cases (k == j)) [
            | inl same ↦ rw (same, ← found) (ap (λ i. lookup i m) ((e.same_iff k j).0 same))
            | inr other ↦ rw other
          ])
  ]

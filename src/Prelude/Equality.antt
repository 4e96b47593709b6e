-- ===== src/Prelude/Equality.antt =====
-- Boolean equality as an interface, and strings as their bytes.
use Prim.Native.Nat.{ℕ}
use mathlib.Core.Path.{◌≡◌, refl}
use mathlib.Core.Logic.{◌↔◌, ◌≢◌}
use mathlib.Core.Bool.{Bool, true, false, ◌&&◌}
use mathlib.Core.List.{List, [], ◌∷◌}
use Prim.Native.Char.{code}
use Prim.Native.String.{String}
use native.Mathlib.Omega.{arith}
use demeter.Prelude.Tests.{nat_eqb, nat_eqb_iff}

infix 50 ◌==◌
pub record Eq {ℓ} (A : Type ℓ) : Type ℓ where
  pub same : A → A → Bool
  pub same_iff : (x y : A) → (same x y ≡ true) ↔ (x ≡ y)

abbrev pub ◌==◌ {ℓ} : {A : Type ℓ} ⦃e : Eq A⦄ → A → A → Bool
◌==◌ ⦃e⦄ = e.same

-- A `std::string` is the list of its bytes.
abbrev pub Str : Type 0
Str = List ℕ

abbrev pub bytes : String → Str
bytes String.[] = []
bytes (String.◌∷◌ c s) = code c ∷ bytes s

unfoldable pub str_eqb : Str → Str → Bool
str_eqb [] [] = true
str_eqb [] (y ∷ ys) = false
str_eqb (x ∷ xs) [] = false
str_eqb (x ∷ xs) (y ∷ ys) = nat_eqb x y && str_eqb xs ys

pub str_eqb_iff : (s t : Str) → (str_eqb s t ≡ true) ↔ (s ≡ t)
unfolding str_eqb
str_eqb_iff [] [] = (λ _. refl, λ _. refl)
str_eqb_iff [] (y ∷ ys) = (λ h. cc, λ h. cc)
str_eqb_iff (x ∷ xs) [] = (λ h. cc, λ h. cc)
str_eqb_iff (x ∷ xs) (y ∷ ys) = ground (arith, str_eqb_iff xs ys)

instance abbrev pub nat_eq : Eq ℕ
nat_eq = record { same = nat_eqb; same_iff = nat_eqb_iff }

instance abbrev pub str_eq : Eq Str
str_eq = record { same = str_eqb; same_iff = str_eqb_iff }

module _ {ℓ} {A : Type ℓ} ⦃e : Eq A⦄ where
  pub eq_refl : (a : A) → (a == a) ≡ true
  eq_refl a = (e.same_iff a a).1 refl

  pub eq_false : (a b : A) → a ≢ b → (a == b) ≡ false
  eq_false a b h = ground (arith, e.same_iff a b)

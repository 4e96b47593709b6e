-- ===== src/Prelude/Sets.antt =====
-- `std::unordered_set` as a list that holds no element twice.
use Prim.Native.Nat.{◌≤◌, suc}
use mathlib.Core.Path.{◌≡◌, refl}
use mathlib.Core.Logic.{inl, inr}
use mathlib.Core.Bool.{Bool, true, false, ◌||◌}
use mathlib.Core.List.{List, [], ◌∷◌}
use native.Mathlib.Omega.{arith}
use mathlib.Core.Logic.{◌↔◌}
use demeter.Prelude.Tests.{if◌then◌else◌, Bool-cases, nat_eqb}
use demeter.Prelude.Equality.{Eq, ◌==◌, eq_refl}
use demeter.Prelude.Lists.{length}

module _ {ℓ} {A : Type ℓ} ⦃e : Eq A⦄ where
  -- `s.find(a) != s.end()`
  unfoldable pub contains : List A → A → Bool
  contains [] a = false
  contains (x ∷ xs) a = x == a || contains xs a

  -- `s.insert(a)`
  unfoldable pub add : A → List A → List A
  unfolding contains
  add a xs = if contains xs a then xs else a ∷ xs

  -- `s.erase(a)`
  unfoldable pub remove : A → List A → List A
  remove a [] = []
  remove a (x ∷ xs) = if x == a then remove a xs else x ∷ remove a xs

  -- The set of the elements of a sequence.
  unfoldable pub of_list : List A → List A
  unfolding add
  of_list [] = []
  of_list (x ∷ xs) = add x (of_list xs)

  -- No element twice.
  abbrev pub IsSetList : List A → Type 0
  IsSetList [] = Unit
  IsSetList (x ∷ xs) = (contains xs x ≡ false) × IsSetList xs

  abbrev pub IsSubset : List A → List A → Type (ℓ)
  IsSubset xs ys = (a : A) → contains xs a ≡ true → contains ys a ≡ true

  pub contains-add : (a b : A) (xs : List A) → contains (add a xs) b ≡ (a == b || contains xs b)
  unfolding add contains
  contains-add a b xs = ground (arith, e.same_iff a b)

  pub contains-remove :
      (a b : A) (xs : List A) → contains (remove a xs) b ≡ (if a == b then false else contains xs b)
  unfolding contains remove
  contains-remove a b [] = ground arith
  contains-remove a b (x ∷ xs) =
      ground (arith, e.same_iff a b, e.same_iff x a, e.same_iff x b, contains-remove a b xs)

  pub add-IsSetList : (a : A) (xs : List A) → IsSetList xs → IsSetList (add a xs)
  unfolding add
  add-IsSetList a xs h = ground arith

  pub of_list-IsSetList : (xs : List A) → IsSetList (of_list xs)
  unfolding of_list
  of_list-IsSetList [] = tt
  of_list-IsSetList (x ∷ xs) = add-IsSetList x (of_list xs) (of_list-IsSetList xs)

  pub contains-of_list : (xs : List A) (a : A) → contains (of_list xs) a ≡ contains xs a
  unfolding of_list contains
  contains-of_list [] a = refl
  contains-of_list (x ∷ xs) a = ground (arith, contains-add x a (of_list xs), contains-of_list xs a)

  pub of_list_self : (xs : List A) → IsSetList xs → of_list xs ≡ xs
  unfolding of_list add
  of_list_self [] h = refl
  of_list_self (x ∷ xs) h = ground (arith, of_list_self xs h.1)

  remove_absent : (a : A) (xs : List A) → contains xs a ≡ false → remove a xs ≡ xs
  unfolding contains remove
  remove_absent a [] h = refl
  remove_absent a (x ∷ xs) h = ground (arith, remove_absent a xs)

  length-remove :
      (a : A) (xs : List A)
      → IsSetList xs
      → contains xs a ≡ true
      → length xs ≡ suc (length (remove a xs))
  unfolding contains remove
  length-remove a [] s h = cc
  length-remove a (x ∷ xs) s h =
      ground (arith, e.same_iff x a, remove_absent a xs, length-remove a xs s.1)

  remove-IsSetList : (a : A) (xs : List A) → IsSetList xs → IsSetList (remove a xs)
  unfolding remove
  remove-IsSetList a [] s = tt
  remove-IsSetList a (x ∷ xs) s =
      ground (arith, e.same_iff a x, contains-remove a x xs, remove-IsSetList a xs s.1)

  -- A set within another has at most as many elements.
  pub length-IsSubset-le :
      (xs ys : List A) → IsSetList xs → IsSetList ys → IsSubset xs ys → length xs ≤ length ys
  unfolding contains
  length-IsSubset-le [] ys s t h = omega arith
  length-IsSubset-le (x ∷ xs) ys s t h = omega (
    arith,
    length-remove x ys t (h x (rw (eq_refl x))),
    length-IsSubset-le xs (remove x ys) s.1 (remove-IsSetList x ys t) rest,
  )
    where
      rest : IsSubset xs (remove x ys)
      rest a k = ground (arith, e.same_iff x a, contains-remove x a ys, h a)

  -- A set within another that has as many elements is the whole of it.
  pub IsSubset-full :
      (xs ys : List A)
      → IsSetList xs
      → IsSetList ys
      → IsSubset xs ys
      → length ys ≤ length xs
      → IsSubset ys xs
  unfolding contains
  IsSubset-full xs ys s t h n a k = elim (Bool-cases (contains xs a)) [
    | inl inside ↦ inside
    | inr outside ↦
        absurd (omega (arith, length-IsSubset-le (a ∷ xs) ys (outside, s) t (more outside)))
  ]
    where
      more : contains xs a ≡ false → IsSubset (a ∷ xs) ys
      more outside b m = ground (arith, e.same_iff a b, h b)

  pub add-IsSubset :
      (a : A) (xs ys : List A) → IsSubset xs ys → contains ys a ≡ true → IsSubset (add a xs) ys
  add-IsSubset a xs ys h k b m = ground (arith, e.same_iff a b, contains-add a b xs, h b)

  -- Of a set within another, the sizes tell whether it is the whole of it.
  pub length-eq_iff :
      (xs ys : List A)
      → IsSetList xs
      → IsSetList ys
      → IsSubset xs ys
      → (nat_eqb (length xs) (length ys) ≡ true) ↔ IsSubset ys xs
  length-eq_iff xs ys s t h = (
    λ e. IsSubset-full xs ys s t h (ground (arith, e)),
    λ c. ground (arith, length-IsSubset-le ys xs t s c, length-IsSubset-le xs ys s t h),
  )

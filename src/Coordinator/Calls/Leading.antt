-- ===== src/Coordinator/Calls/Leading.antt =====
-- pheromone/src/coordinator/func_call_handler.cpp: the nodes that are dealt no request are the last
-- ones, so the loop that cuts the requests never waits at a node without load.
use demeter.Prelude.{
  nat_eqb, Bool-cases, Option-cases, Ensures, length, get_elem?, All, nat_eq, str_eq, ℕ, zero, suc,
  ◌+◌, ◌-◌, ◌%◌, ◌<◌, ◌≡◌, refl, subst, ◌⊎◌, inl, inr, some, List, [], ◌∷◌, arith,
}
use demeter.Coordinator.Calls.{next_free, modify, deal}
use demeter.Coordinator.Calls.Rounds.{next_idx, length-modify, leb-suc}

abbrev pub AllZero : List ℕ → Type 0
AllZero = All (λ l. l ≡ 0)

abbrev pub AllPositive : List ℕ → Type 0
AllPositive = All (λ l. 0 < l)

-- Positive loads, followed by loads of 0.
abbrev pub Leading : List ℕ → Type 0
Leading [] = Unit
Leading (l ∷ ls) = ((0 < l) × Leading ls) ⊎ AllZero (l ∷ ls)

-- In the first round, when the loop is at a node: the nodes before it have loads, and the others
-- have none and have executors.
abbrev First : ℕ → List ℕ → List ℕ → Type 0
First zero loads avail = AllZero loads × AllPositive avail
First (suc i) (l ∷ ls) (a ∷ us) = (0 < l) × First i ls us
First (suc i) _ _ = ⊥

AllZero-Leading : (loads : List ℕ) → AllZero loads → Leading loads
AllZero-Leading [] z = tt
AllZero-Leading (l ∷ ls) z = inr z

AllPositive-Leading : (loads : List ℕ) → AllPositive loads → Leading loads
AllPositive-Leading [] p = tt
AllPositive-Leading (l ∷ ls) p = inl (p.0, AllPositive-Leading ls p.1)

First-Leading : (i : ℕ) (loads avail : List ℕ) → First i loads avail → Leading loads
First-Leading zero loads avail f = AllZero-Leading loads f.0
First-Leading (suc i) (l ∷ ls) (a ∷ us) f = inl (f.0, First-Leading i ls us f.1)
First-Leading (suc i) [] us f = absurd f
First-Leading (suc i) (l ∷ ls) [] f = absurd f

First-free :
    (i : ℕ) (loads avail : List ℕ)
    → First i loads avail
    → i < length avail
    → (b : ℕ) × (get_elem? avail i ≡ some (suc b))
First-free zero loads [] f h = absurd (omega (arith, h))
First-free zero loads (zero ∷ us) f h = absurd (omega (arith, f.1.0))
First-free zero loads (suc b ∷ us) f h = (b, refl)
First-free (suc i) (l ∷ ls) (a ∷ us) f h = First-free i ls us f.1 (omega (arith, h))
First-free (suc i) [] us f h = absurd f
First-free (suc i) (l ∷ ls) [] f h = absurd f

First-modify :
    (i : ℕ) (loads avail : List ℕ)
    → First i loads avail
    → i < length avail
    → length loads ≡ length avail
    → First (suc i) (modify (λ n. n + 1) loads i) (modify (λ n. n - 1) avail i)
unfolding modify
First-modify zero [] us f h same = absurd (omega (arith, h, same))
First-modify zero (l ∷ ls) [] f h same = absurd (omega (arith, h))
First-modify zero (l ∷ ls) (a ∷ us) f h same = (omega arith, (f.0.1, f.1.1))
First-modify (suc i) (l ∷ ls) (a ∷ us) f h same =
    (f.0, First-modify i ls us f.1 (omega (arith, h)) (omega (arith, same)))
First-modify (suc i) [] us f h same = absurd f
First-modify (suc i) (l ∷ ls) [] f h same = absurd f

First-full : (loads avail : List ℕ) → First (length loads) loads avail → AllPositive loads
First-full [] us f = tt
First-full (l ∷ ls) (a ∷ us) f = (f.0, First-full ls us f.1)
First-full (l ∷ ls) [] f = absurd f

AllPositive-modify :
    (loads : List ℕ) (i : ℕ) → AllPositive loads → AllPositive (modify (λ n. n + 1) loads i)
unfolding modify
AllPositive-modify [] i p = tt
AllPositive-modify (l ∷ ls) zero p = (omega arith, p.1)
AllPositive-modify (l ∷ ls) (suc i) p = (p.0, AllPositive-modify ls i p.1)

deal-AllPositive :
    (req_num : ℕ) (avail loads : List ℕ) (idx : ℕ)
    → AllPositive loads
    → Ensures Leading (deal req_num avail loads idx)
unfolding deal
deal-AllPositive zero avail loads idx p = AllPositive-Leading loads p
deal-AllPositive (suc req_num) avail loads idx p =
    elim (Option-cases (next_free (length avail) avail idx)) [
      | inl stuck ↦ rw (deal, stuck) tt
      | inr (i, next) ↦
          rw (deal, next)
            (deal-AllPositive req_num (modify (λ n. n - 1) avail i) (modify (λ n. n + 1) loads i)
              ((i + 1) % length avail) (AllPositive-modify loads i p))
    ]

next_free-here :
    (avail : List ℕ) (idx b : ℕ)
    → get_elem? avail idx ≡ some (suc b)
    → next_free (length avail) avail idx ≡ some idx
unfolding next_free
next_free-here [] idx b free = absurd (ground (arith, free))
next_free-here (a ∷ us) idx b free = rw (next_free, free, leb-suc b)

-- From the first node on, the loads that the loop deals are positive up to some node and 0 behind it.
pub deal-Leading :
    (req_num : ℕ) (avail loads : List ℕ) (idx : ℕ)
    → idx < length avail
    → length loads ≡ length avail
    → First idx loads avail
    → Ensures Leading (deal req_num avail loads idx)
unfolding deal
deal-Leading zero avail loads idx h same f = First-Leading idx loads avail f
deal-Leading (suc req_num) avail loads idx h same f =
    let (b, free) = First-free idx loads avail f h in
    let next : next_free (length avail) avail idx ≡ some idx = next_free-here avail idx b free in
    let later = First-modify idx loads avail f h same in
    rw (deal, next)
      (elim (Bool-cases (nat_eqb (idx + 1) (length avail))) [
        | inl last ↦
            deal-AllPositive req_num (modify (λ n. n - 1) avail idx) (modify (λ n. n + 1) loads idx)
              ((idx + 1) % length avail)
              (First-full (modify (λ n. n + 1) loads idx) (modify (λ n. n - 1) avail idx) (
                subst (λ i. First i (modify (λ n. n + 1) loads idx) (modify (λ n. n - 1) avail idx))
                  {x = suc idx} (ground (arith, last, same, length-modify (λ n. n + 1) loads idx))
                  later))
        | inr more ↦
            let there : (idx + 1) % length avail ≡ suc idx =
              ground (arith, next_idx (length avail) idx h, more) in
            rw there (
              deal-Leading req_num (modify (λ n. n - 1) avail idx) (modify (λ n. n + 1) loads idx)
                (suc idx) (ground (arith, h, more, length-modify (λ n. n - 1) avail idx))
                (omega (
                  arith,
                  length-modify (λ n. n - 1) avail idx,
                  length-modify (λ n. n + 1) loads idx,
                  same,
                ))
                later)
      ])

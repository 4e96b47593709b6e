-- ===== src/Coordinator/Demeter/Allocation.antt =====
-- pheromone/src/coordinator/demeter_scheduler.cpp, `choose_allocation`: which allocation a request
-- is given.
use demeter.Prelude.{
  Bool-cases, Ensures, Ensures-map, length, get_elem?, All, or_default, nat_eq, str_eq, ℕ, suc, ◌≤◌,
  ◌<◌, ◌≡◌, refl, ap, subst, ◌⊎◌, inl, inr, true, false, Option, none, some, List, [], ◌∷◌, arith,
}
use demeter.Coordinator.{FunctionRequest}
use demeter.Coordinator.Demeter.{
  Double, DemeterAllocation, DemeterSchedulerConfig, is_better, is_enough, best_allocation, back,
  required_mb, choose_allocation,
}

module _ {D : Type 0} (d : Double D) (a b : DemeterAllocation D) where
  better_le : is_better d a b ≡ true → a.memory_mb ≤ b.memory_mb
  unfolding is_better
  better_le better = ground (arith, better)

  worse_le : is_better d a b ≡ false → b.memory_mb ≤ a.memory_mb
  unfolding is_better
  worse_le worse = ground (arith, worse)

module _ {D : Type 0} (d : Double D) where
  module _ (mb : D) where
    abbrev Listed : DemeterAllocation D → List (DemeterAllocation D) → Type 0
    Listed b allocs = (i : ℕ) × (get_elem? allocs i ≡ some b)

    abbrev Enough : DemeterAllocation D → Type 0
    Enough a = is_enough d mb a ≡ true

    abbrev Smallest : DemeterAllocation D → List (DemeterAllocation D) → Type 0
    Smallest b = All (λ a. Enough a → b.memory_mb ≤ a.memory_mb)

    -- What the rest of the loop makes of the best allocation so far.
    abbrev Good :
        Option (DemeterAllocation D)
        → List (DemeterAllocation D)
        → Option (DemeterAllocation D)
        → Type 0
    Good best allocs none = (best ≡ none) × All (λ a. is_enough d mb a ≡ false) allocs
    Good best allocs (some b) =
        ((best ≡ some b) ⊎ (Listed b allocs × Enough b))
        × Smallest b allocs
        × Ensures (λ b0. b.memory_mb ≤ b0.memory_mb) best

    later :
        (best : Option (DemeterAllocation D)) (a b : DemeterAllocation D)
        (allocs : List (DemeterAllocation D))
        → (best ≡ some b) ⊎ (Listed b allocs × Enough b)
        → (best ≡ some b) ⊎ (Listed b (a ∷ allocs) × Enough b)
    later best a b allocs (inl e) = inl e
    later best a b allocs (inr ((i, there), enough)) = inr ((suc i, there), enough)

    Good-skip :
        (best : Option (DemeterAllocation D)) (a : DemeterAllocation D)
        (allocs : List (DemeterAllocation D)) (res : Option (DemeterAllocation D))
        → is_enough d mb a ≡ false
        → Good best allocs res
        → Good best (a ∷ allocs) res
    Good-skip best a allocs none small g = (g.0, (small, g.1))
    Good-skip best a allocs (some b) small g =
        (later best a b allocs g.0, ((λ e. absurd (true≢false e)), g.1), g.2)
      where
        true≢false : ¬ Enough a
        true≢false e = ground (arith, e, small)

    Good-keep :
        (b0 a : DemeterAllocation D) (allocs : List (DemeterAllocation D))
        (res : Option (DemeterAllocation D))
        → b0.memory_mb ≤ a.memory_mb
        → Good (some b0) allocs res
        → Good (some b0) (a ∷ allocs) res
    Good-keep b0 a allocs none le g = absurd (ground (arith, g.0))
    Good-keep b0 a allocs (some b) le g =
        (later (some b0) a b allocs g.0, ((λ e. omega (arith, le, g.2)), g.1), g.2)

    Good-take :
        (best : Option (DemeterAllocation D)) (a : DemeterAllocation D)
        (allocs : List (DemeterAllocation D)) (res : Option (DemeterAllocation D))
        → Enough a
        → Ensures (λ b0. a.memory_mb ≤ b0.memory_mb) best
        → Good (some a) allocs res
        → Good best (a ∷ allocs) res
    Good-take best a allocs none enough le g = absurd (ground (arith, g.0))
    Good-take best a allocs (some b) enough le g = (
      inr (origin g.0),
      ((λ e. g.2), g.1),
      Ensures-map (λ (b0 : DemeterAllocation D). a.memory_mb ≤ b0.memory_mb)
          (λ b0. b.memory_mb ≤ b0.memory_mb) (λ b0 k. omega (arith, k, g.2)) best le,
    )
      where
        origin : (some a ≡ some b) ⊎ (Listed b allocs × Enough b) → Listed b (a ∷ allocs) × Enough b
        origin (inl e) = ((0, e), subst (λ o. Enough (or_default a o)) e enough)
        origin (inr ((i, there), enough)) = ((suc i, there), enough)

    best_allocation-Good :
        (allocs : List (DemeterAllocation D)) (best : Option (DemeterAllocation D))
        → Good best allocs (best_allocation d mb best allocs)
    unfolding best_allocation
    best_allocation-Good [] none = (refl, tt)
    best_allocation-Good [] (some b) = (inl refl, tt, omega arith)
    best_allocation-Good (a ∷ allocs) none = elim (Bool-cases (is_enough d mb a)) [
      | inl enough ↦
          rw (best_allocation, enough)
            (Good-take none a allocs _ enough tt (best_allocation-Good allocs (some a)))
      | inr small ↦
          rw (best_allocation, small)
            (Good-skip none a allocs _ small (best_allocation-Good allocs none))
    ]
    best_allocation-Good (a ∷ allocs) (some b) = elim (Bool-cases (is_enough d mb a)) [
      | inr small ↦
          rw (best_allocation, small)
            (Good-skip (some b) a allocs _ small (best_allocation-Good allocs (some b)))
      | inl enough ↦ elim (Bool-cases (is_better d a b)) [
        | inl better ↦
            rw (best_allocation, enough, better)
              (Good-take (some b) a allocs _ enough (smaller better)
                (best_allocation-Good allocs (some a)))
        | inr worse ↦
            rw (best_allocation, enough, worse)
              (Good-keep b a allocs _ (larger worse) (best_allocation-Good allocs (some b)))
      ]
    ]
      where
        smaller : is_better d a b ≡ true → a.memory_mb ≤ b.memory_mb
        smaller better = better_le d a b better

        larger : is_better d a b ≡ false → b.memory_mb ≤ a.memory_mb
        larger worse = worse_le d a b worse

  back-Listed :
      (a : DemeterAllocation D) (allocs : List (DemeterAllocation D))
      → (i : ℕ) × (get_elem? (a ∷ allocs) i ≡ some (back d a allocs))
  back-Listed a [] = (0, refl)
  back-Listed a (b ∷ allocs) = let (i, e) = back-Listed b allocs in (suc i, e)

  -- Where allocations are configured, a request is given one of them. If one is large enough for the
  -- request, then the one it is given is, and no other that is large enough has less memory.
  pub choose_allocation-smallest :
      (req : FunctionRequest D) (config : DemeterSchedulerConfig D)
      → 0 < length config.allocations
      → ((i : ℕ) × (get_elem? config.allocations i ≡ some (choose_allocation d req config)))
        × (All (λ a. is_enough d (required_mb d req config) a ≡ false) config.allocations
            ⊎ ((is_enough d (required_mb d req config) (choose_allocation d req config) ≡ true)
                × All
                    (λ a.
                      is_enough d (required_mb d req config) a ≡ true
                      → (choose_allocation d req config).memory_mb ≤ a.memory_mb)
                    config.allocations))
  unfolding choose_allocation
  choose_allocation-smallest req config configured = go config.allocations refl
    where
      mb : D
      mb = required_mb d req config

      Chosen : DemeterAllocation D → List (DemeterAllocation D) → Type 0
      Chosen b allocs =
          ((i : ℕ) × (get_elem? allocs i ≡ some b))
          × (All (λ a. is_enough d mb a ≡ false) allocs
              ⊎ ((is_enough d mb b ≡ true)
                  × All (λ a. is_enough d mb a ≡ true → b.memory_mb ≤ a.memory_mb) allocs))

      found :
          (a : DemeterAllocation D) (allocs : List (DemeterAllocation D))
          (res : Option (DemeterAllocation D))
          → Good mb none (a ∷ allocs) res
          → Chosen (or_default (back d a allocs) res) (a ∷ allocs)
      found a allocs none g = (back-Listed a allocs, inl g.1)
      found a allocs (some b) (inl e, smallest, t) = absurd (ground (arith, e))
      found a allocs (some b) (inr (listed, enough), smallest, t) = (listed, inr (enough, smallest))

      go :
          (allocs : List (DemeterAllocation D))
          → config.allocations ≡ allocs
          → Chosen (choose_allocation d req config) config.allocations
      go [] e = absurd (omega (arith, configured, ap length e))
      go (a ∷ allocs) e =
          rw (choose_allocation, e)
            (found a allocs (best_allocation d mb none (a ∷ allocs))
              (best_allocation-Good mb (a ∷ allocs) none))

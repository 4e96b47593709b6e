-- ===== src/Scheduler/Calls/Runs.antt =====
-- pheromone/src/scheduler/scheduler_server.cpp, `schedule_func_call`: a call for which there is an
-- executor runs.
use native.Mathlib.Nat.{mod-lt}
use demeter.Prelude.{
  lt→ltb, nat_eqb_iff, ◌>>=◌, Ensures, Ensures-map, length, get_elem?, All, All-map, Map, lookup,
  nat_eq, str_eq, ℕ, zero, suc, ◌%◌, ◌<◌, ◌≡◌, refl, subst, ◌⊎◌, inl, inr, true, false, Option,
  none, some, List, [], ◌∷◌, arith,
}
use demeter.Trigger.ByTime.{TimePoint}
use demeter.Scheduler.{DelayFunctionCall, Scheduler, Env}
use demeter.Scheduler.Calls.{
  is_found, send_to_executer, choose_executor, dispatch_call, schedule_func_call,
}
use demeter.Scheduler.Calls.Free.{IsFree, IsMap, AllFree, find_executors-IsFree}
use demeter.Scheduler.Calls.Outcomes.{Gives, Keeps, executors_for, schedule_func_call-IsOutcome}

-- Every executor of the map is one of the configured ones.
abbrev pub AreConfigured : ℕ → Map ℕ ℕ → Type 0
AreConfigured count = All (λ entry. entry.0 < count)

lookup-lt :
    (count id st : ℕ) (m : Map ℕ ℕ) → AreConfigured count m → lookup id m ≡ some st → id < count
unfolding lookup
lookup-lt count id st [] h found = absurd (ground (arith, found))
lookup-lt count id st ((j, w) ∷ m) h found =
    ground (arith, nat_eqb_iff j id, found, h.0, lookup-lt count id st m h.1)

get_elem?-lt {ℓ} :
    {A : Type ℓ} (xs : List A) (i : ℕ) → i < length xs → (a : A) × (get_elem? xs i ≡ some a)
get_elem?-lt [] i h = absurd (omega (arith, h))
get_elem?-lt (x ∷ xs) zero h = (x, refl)
get_elem?-lt (x ∷ xs) (suc i) h = get_elem?-lt xs i (omega (arith, h))

-- Every one of the executors that were found has the property.
abbrev AllBelow : ℕ → Option ℕ × List ℕ → Type 0
AllBelow count found = Ensures (λ id. id < count) found.0 × All (λ id. id < count) found.1

AllFree-AllBelow :
    (count : ℕ) (m : Map ℕ ℕ) (found : Option ℕ × List ℕ)
    → AreConfigured count m
    → AllFree m found
    → AllBelow count found
AllFree-AllBelow count m (warm, colds) c free = (
  Ensures-map (IsFree m) (λ id. id < count) (λ id f. lookup-lt count id f.0 m c f.1) warm free.0,
  All-map (IsFree m) (λ id. id < count) (λ id f. lookup-lt count id f.0 m c f.1) colds free.1,
)

All-get {ℓ κ} :
    {A : Type ℓ} (P : A → Type κ) (xs : List A) (i : ℕ) (a : A)
    → All P xs
    → get_elem? xs i ≡ some a
    → P a
All-get P [] i a h e = absurd (ground (arith, e))
All-get P (x ∷ xs) zero a h e = subst P (ground (arith, e)) h.0
All-get P (x ∷ xs) (suc i) a h e = All-get P xs i a h.1 e

module _ {B D : Type 0} (env : Env B D) where
  abbrev Returns : Option (Scheduler D) → Type 0
  Returns o = (s' : Scheduler D) × (o ≡ some s')

  dispatch_call-Returns :
      (now : TimePoint) (c : DelayFunctionCall D) (id : ℕ) (s : Scheduler D)
      → id < env.executor_count
      → Returns (dispatch_call env now c id s)
  unfolding dispatch_call send_to_executer
  dispatch_call-Returns now c id s h = rw (lt→ltb id env.executor_count h) (_, refl)

  chosen-Returns :
      (c : DelayFunctionCall D) (s : Scheduler D) (found : Option ℕ × List ℕ)
      → is_found found ≡ true
      → AllBelow env.executor_count found
      → Returns (
          choose_executor env c.func_name found s >>= λ r.
          dispatch_call env c.trigger_time c r.0 r.1)
  unfolding choose_executor
  chosen-Returns c s (some id, colds) f below = dispatch_call-Returns c.trigger_time c id _ below.0
  chosen-Returns c s (none, []) f below = absurd (ground (arith, f))
  chosen-Returns c s (none, id ∷ ids) f below =
      let index = (env.rand_r s.seed).0 % length (id ∷ ids) in
      let picked = get_elem?-lt (id ∷ ids) index (mod-lt (env.rand_r s.seed).0 (omega arith)) in
      rw (picked.1) (
        dispatch_call-Returns c.trigger_time c picked.0 _
          (All-get (λ i. i < env.executor_count) (id ∷ ids) index picked.0 below.1 picked.1))

  Gives-of :
      (s : Scheduler D) (c : DelayFunctionCall D) (o : Option (Scheduler D))
      → is_found (executors_for env s c) ≡ true
      → Returns o
      → Ensures
          (λ s'. Gives env s c s' ⊎ ((is_found (executors_for env s c) ≡ false) × Keeps s s'))
          o
      → (s' : Scheduler D) × (o ≡ some s') × Gives env s c s'
  Gives-of s c o found (s', e) outcome =
      elim (subst
        (Ensures (λ t. Gives env s c t ⊎ ((is_found (executors_for env s c) ≡ false) × Keeps s t)))
        e outcome) [
          | inl gives ↦ (s', e, gives)
          | inr (missing, kept) ↦ absurd (ground (arith, found, missing))
        ]

  -- Where there is an executor for a call, the call is scheduled without a fault: an executor that
  -- was free gets its message, and awaits it. The executors of the map are pairwise different and
  -- among the configured ones.
  pub schedule_func_call-Gives :
      (c : DelayFunctionCall D) (s : Scheduler D)
      → IsMap s.executor_status_map
      → AreConfigured env.executor_count s.executor_status_map
      → is_found (executors_for env s c) ≡ true
      → (s' : Scheduler D) × (schedule_func_call env c s ≡ some s') × Gives env s c s'
  unfolding schedule_func_call
  schedule_func_call-Gives c s h configured found =
      Gives-of s c (schedule_func_call env c s) found
        (rw found (
          chosen-Returns c s (executors_for env s c) found (
            AllFree-AllBelow env.executor_count s.executor_status_map (executors_for env s c)
              configured (find_executors-IsFree env.shared_executor _ s.executor_status_map h))))
        (schedule_func_call-IsOutcome env c s h)

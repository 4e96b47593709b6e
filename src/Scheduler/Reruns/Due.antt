-- ===== src/Scheduler/Reruns/Due.antt =====
-- pheromone/src/scheduler/scheduler_server.cpp, the "rerun check" of `run`: how many
-- functions are overdue.
use demeter.Prelude.{
  ltb, leb, if◌then◌else◌, ltb→lt, Bool-cases, Option-cases, length, nat_eq, str_eq, ℕ, suc, ◌+◌,
  ◌≤◌, ◌<◌, ◌≡◌, refl, inl, inr, none, some, List, [], ◌∷◌, ◌++◌, arith,
}
use demeter.Trigger.ByTime.{TimePoint}
use demeter.Scheduler.{RerunCheckQueueItem}
use demeter.Scheduler.Reruns.{pop_min, top_of, pop, due_item}

-- 1 for an item whose time has come.
abbrev pub is_due : TimePoint → RerunCheckQueueItem → ℕ
is_due now item = if leb item.check_time now then 1 else 0

unfoldable pub due_count : TimePoint → List RerunCheckQueueItem → ℕ
due_count now [] = 0
due_count now (item ∷ items) = is_due now item + due_count now items

pub due_count-append :
    (now : TimePoint) (xs ys : List RerunCheckQueueItem)
    → due_count now (xs ++ ys) ≡ due_count now xs + due_count now ys
unfolding due_count
due_count-append now [] ys = omega arith
due_count-append now (x ∷ xs) ys = omega (arith, due_count-append now xs ys)

pub due_count-le : (now : TimePoint) (xs : List RerunCheckQueueItem) → due_count now xs ≤ length xs
unfolding due_count
due_count-le now [] = omega arith
due_count-le now (x ∷ xs) = ground (arith, due_count-le now xs)

-- The item on top is the first, and no item of the rest is due unless it is.
pop_min-due :
    (now : TimePoint) (items : List RerunCheckQueueItem) (least : RerunCheckQueueItem)
    → (is_due now (pop_min least items).0 + due_count now (pop_min least items).1
        ≡ is_due now least + due_count now items)
      × ((pop_min least items).0.check_time ≤ least.check_time)
      × (is_due now (pop_min least items).0 ≡ 0 → due_count now items ≡ 0)
unfolding pop_min due_count
pop_min-due now [] least = (refl, omega arith, λ h. refl)
pop_min-due now (item ∷ items) least = elim (Bool-cases (ltb item.check_time least.check_time)) [
  | inl earlier ↦
      let r = pop_min-due now items item in
      rw earlier (
        omega (arith, r.0),
        omega (arith, r.1, ltb→lt item.check_time least.check_time earlier),
        λ h. ground (arith, r.1, r.2 h, h),
      )
  | inr later ↦
      let r = pop_min-due now items least in
      rw later (omega (arith, r.0), omega (arith, r.1), λ h. ground (arith, r.1, r.2 h, h, later))
]

-- Of the items that are due, the loop takes one.
pub due_count-pop :
    (now : TimePoint) (queue : List RerunCheckQueueItem)
    → 0 < due_count now queue
    → suc (due_count now (pop queue)) ≡ due_count now queue
unfolding pop due_count
due_count-pop now [] h = absurd (omega (arith, h))
due_count-pop now (item ∷ items) h =
    let r = pop_min-due now items item in ground (arith, r.0, r.1, r.2, h)

pub due_item-none :
    (now : TimePoint) (queue : List RerunCheckQueueItem)
    → due_item now queue ≡ none
    → due_count now queue ≡ 0
unfolding due_item top_of due_count
due_item-none now [] h = refl
due_item-none now (item ∷ items) h =
    let r = pop_min-due now items item in ground (arith, r.0, r.1, r.2, h)

pub due_item-some :
    (now : TimePoint) (queue : List RerunCheckQueueItem) (item : RerunCheckQueueItem)
    → due_item now queue ≡ some item
    → 0 < due_count now queue
unfolding due_item top_of due_count
due_item-some now [] item h = absurd (ground (arith, h))
due_item-some now (first ∷ items) item h =
    let r = pop_min-due now items first in ground (arith, r.0, r.1, r.2, h)

pub none_due :
    (now : TimePoint) (queue : List RerunCheckQueueItem)
    → due_count now queue ≡ 0
    → due_item now queue ≡ none
none_due now queue h = elim (Option-cases (due_item now queue)) [
  | inl e ↦ e
  | inr (item, e) ↦ absurd (omega (arith, h, due_item-some now queue item e))
]

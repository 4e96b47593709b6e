-- ===== src/Scheduler/Reruns.antt =====
-- pheromone/src/scheduler/scheduler_server.cpp, the "rerun check" of `run`: functions whose results are
-- overdue are called again.
pub mod Due
pub mod Ends
use demeter.Prelude.{
  ltb, leb, if◌then◌else◌, ◌>>=◌, length, get_elem?, or_default, lookup, Str, nat_eq, str_eq, ℕ,
  zero, suc, ◌-◌, ◌/◌, Option, none, some, List, [], ◌∷◌,
}
use demeter.Trigger.{TriggerFunctionMetadata}
use demeter.Trigger.Any.{action_for_rerun}
use demeter.Trigger.ByTime.{TimePoint}
use demeter.Scheduler.{RerunCheckQueueItem, Scheduler, Env}
use demeter.Scheduler.Run.{report_status}
use demeter.Scheduler.Calls.{schedule_func_call, call_of}

-- The first of the items with the least time, which a priority queue has on top (the order of
-- equal times is the library's), and the others.
unfoldable pub pop_min :
    RerunCheckQueueItem → List RerunCheckQueueItem → RerunCheckQueueItem × List RerunCheckQueueItem
pop_min least [] = (least, [])
pop_min least (item ∷ items) =
    let earlier = ltb item.check_time least.check_time in
    let (top, rest) = pop_min (if earlier then item else least) items in
    (top, (if earlier then least else item) ∷ rest)

-- `top`
unfoldable pub top_of : List RerunCheckQueueItem → Option RerunCheckQueueItem
unfolding pop_min
top_of [] = none
top_of (item ∷ items) = some (pop_min item items).0

-- `pop`
unfoldable pub pop : List RerunCheckQueueItem → List RerunCheckQueueItem
unfolding pop_min
pop [] = []
pop (item ∷ items) = (pop_min item items).1

-- The item on top, if its time has come.
unfoldable pub due_item : TimePoint → List RerunCheckQueueItem → Option RerunCheckQueueItem
unfolding top_of
due_item now queue = do item ← top_of queue; if leb item.check_time now then some item else none

abbrev pub sched_timer_threshold : ℕ
sched_timer_threshold = 10

module _ {B D : Type 0} (env : Env B D) where
  -- The functions of an item, each for the application that it belongs to.
  unfoldable pub rerun_calls :
      TimePoint → Str → List TriggerFunctionMetadata → Scheduler D → Option (Scheduler D)
  unfolding schedule_func_call
  rerun_calls now session [] s = some s
  rerun_calls now session (meta ∷ metas) s = do
    s' ←
        schedule_func_call env
          (call_of env now session (or_default [] (lookup meta.func_name s.func_app_map)) meta) s
    rerun_calls now session metas s'

  -- One round of the loop, for the item on top.
  unfoldable pub rerun_item : TimePoint → RerunCheckQueueItem → Scheduler D → Option (Scheduler D)
  unfolding rerun_calls pop
  rerun_item now item s = do
    t ← get_elem? s.triggers item.trigger_ptr
    s' ← rerun_calls now item.session (action_for_rerun t item.session) s
    some (record s' { rerun_check_queue = pop s'.rerun_check_queue })

  -- The item that is due, if there is one, and the rest of the loop.
  unfoldable pub rerun_from :
      (Scheduler D → Option (Scheduler D))
      → TimePoint
      → Option RerunCheckQueueItem
      → Scheduler D
      → Option (Scheduler D)
  unfolding rerun_item
  rerun_from rest now none s = some s
  rerun_from rest now (some item) s = rerun_item now item s >>= rest

  -- The loop, for as many rounds as the fuel allows.
  unfoldable pub rerun_loop : ℕ → TimePoint → Scheduler D → Option (Scheduler D)
  unfolding due_item rerun_from
  rerun_loop zero now s = some s
  rerun_loop (suc fuel) now s =
      rerun_from (rerun_loop fuel now) now (due_item now s.rerun_check_queue) s

  -- As much fuel as there are items.
  unfoldable pub rerun_check : TimePoint → Scheduler D → Option (Scheduler D)
  unfolding rerun_loop
  rerun_check now s = rerun_loop (length s.rerun_check_queue) now s

  -- The end of a round: every ten milliseconds the overdue functions are called again and the status
  -- is reported.
  unfoldable pub report_timer :
      TimePoint → TimePoint → Scheduler D → Option (TimePoint × Scheduler D)
  unfolding rerun_check report_status
  report_timer report_start now s =
      if leb sched_timer_threshold ((now - report_start) / 1000000)
      then (do s' ← rerun_check now s; some (now, report_status env s'))
      else some (report_start, s)

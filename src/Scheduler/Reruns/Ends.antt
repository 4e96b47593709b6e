-- ===== src/Scheduler/Reruns/Ends.antt =====
-- pheromone/src/scheduler/scheduler_server.cpp, the "rerun check" of `run`: the loop ends.
use demeter.Prelude.{
  Option-cases, ◌>>=◌, Ensures, Ensures-bind, if-both, Ensures-bind_any, Ensures-map, add, length,
  get_elem?, All, Map, or_default, lookup, update, Str, nat_eq, str_eq, ℕ, zero, suc, ◌%◌, ◌≤◌, ◌<◌,
  ◌≡◌, refl, sym, ap, subst, ◌∙◌, inl, inr, Option, none, some, List, [], ◌∷◌, arith,
}
use demeter.Trigger.{TriggerFunctionMetadata}
use demeter.Trigger.Any.{action_for_rerun}
use demeter.Trigger.ByTime.{TimePoint}
use demeter.Scheduler.{RerunCheckQueueItem, RerunTriggerTimeout, DelayFunctionCall, Scheduler, Env}
use demeter.Scheduler.Calls.{
  is_found, send_to_executer, choose_executor, dispatch_call, refuse_call, arm_reruns,
  schedule_func_call, call_of,
}
use demeter.Scheduler.Calls.Outcomes.{executors_for, Passes, refuse_call-Passes}
use demeter.Scheduler.Reruns.Due.{
  due_count, due_count-append, due_count-le, due_count-pop, due_item-some, none_due,
}
use demeter.Scheduler.Reruns.{
  due_item, rerun_calls, rerun_item, rerun_from, rerun_loop, rerun_check,
}

-- Every function is awaited for some time.
abbrev pub TakeTime : Map Str (List RerunTriggerTimeout) → Type 0
TakeTime timeouts =
    (func : Str) → All (λ meta. 0 < meta.timeout) (or_default [] (lookup func timeouts))

module _ {B D : Type 0} (env : Env B D) where
  -- As many items are due as before, and the timeouts are the same.
  record SameDue (now : TimePoint) (s s' : Scheduler D) : Type 0 where
    due : due_count now s'.rerun_check_queue ≡ due_count now s.rerun_check_queue
    timeouts : s'.func_trigger_timeout_map ≡ s.func_trigger_timeout_map

  abbrev Same : TimePoint → Scheduler D → Option (Scheduler D) → Type 0
  Same now s = Ensures (SameDue now s)

  arm_reruns-SameDue :
      (metas : List RerunTriggerTimeout) (now : TimePoint) (func session : Str) (args : List Str)
      (flag : ℕ) (s : Scheduler D)
      → All (λ meta. 0 < meta.timeout) metas
      → SameDue now s (arm_reruns env now func session args flag metas s)
  unfolding arm_reruns due_count
  arm_reruns-SameDue [] now func session args flag s h = record { due = refl; timeouts = refl }
  arm_reruns-SameDue (meta ∷ metas) now func session args flag s h =
      let rest = arm_reruns-SameDue metas now func session args flag _ h.1 in
      record {
        due = rest.due ∙ due_count-append now s.rerun_check_queue _ ∙ ground (arith, h.0);
        timeouts = rest.timeouts;
      }

  dispatch_call-SameDue :
      (c : DelayFunctionCall D) (id : ℕ) (s : Scheduler D)
      → TakeTime s.func_trigger_timeout_map
      → Same c.trigger_time s (dispatch_call env c.trigger_time c id s)
  unfolding dispatch_call
  dispatch_call-SameDue c id s h =
      Ensures-bind_any (SameDue c.trigger_time s) (send_to_executer env id _ s.helper) _ (λ x.
        let armed =
          arm_reruns-SameDue (or_default [] (lookup c.func_name s.func_trigger_timeout_map))
            c.trigger_time c.func_name c.session_id c.func_args c.arg_flag _ (h c.func_name) in
        record { due = armed.due; timeouts = armed.timeouts })

  chosen-SameDue :
      (c : DelayFunctionCall D) (s : Scheduler D) (found : Option ℕ × List ℕ)
      → TakeTime s.func_trigger_timeout_map
      → Same c.trigger_time s (
          choose_executor env c.func_name found s >>= λ r.
          dispatch_call env c.trigger_time c r.0 r.1)
  unfolding choose_executor
  chosen-SameDue c s (some id, colds) h =
      Ensures-map (SameDue c.trigger_time _) (SameDue c.trigger_time s)
        (λ s' d. record { due = d.due; timeouts = d.timeouts })
        (dispatch_call env c.trigger_time c id (record s { seed = (env.rand_r s.seed).1 }))
        (dispatch_call-SameDue c id (record s { seed = (env.rand_r s.seed).1 }) h)
  chosen-SameDue c s (none, colds) h =
      elim (Option-cases (get_elem? colds ((env.rand_r s.seed).0 % length colds))) [
        | inl outside ↦ rw outside tt
        | inr (id, found) ↦ rw found (
            Ensures-map (SameDue c.trigger_time (picked id)) (SameDue c.trigger_time s)
              (λ s' d. record { due = d.due; timeouts = d.timeouts })
              (dispatch_call env c.trigger_time c id (picked id))
              (dispatch_call-SameDue c id (picked id) h))
      ]
    where
      picked : ℕ → Scheduler D
      picked id = record s {
        seed = (env.rand_r s.seed).1;
        function_executor_map = update c.func_name [] (add id) s.function_executor_map;
      }

  schedule_func_call-SameDue :
      (c : DelayFunctionCall D) (s : Scheduler D)
      → TakeTime s.func_trigger_timeout_map
      → Same c.trigger_time s (schedule_func_call env c s)
  unfolding schedule_func_call
  schedule_func_call-SameDue c s h =
      if-both (Same c.trigger_time s) (is_found (executors_for env s c))
        (choose_executor env c.func_name (executors_for env s c) s >>= λ r.
          dispatch_call env c.trigger_time c r.0 r.1)
        (refuse_call env c s) (chosen-SameDue c s (executors_for env s c) h)
        (Ensures-map (Passes s) (SameDue c.trigger_time s)
          (λ s' p. record { due = ap (due_count c.trigger_time) p.queue; timeouts = p.timeouts })
          (refuse_call env c s) (refuse_call-Passes env c s))

  rerun_calls-SameDue :
      (metas : List TriggerFunctionMetadata) (now : TimePoint) (session : Str) (s : Scheduler D)
      → TakeTime s.func_trigger_timeout_map
      → Same now s (rerun_calls env now session metas s)
  unfolding rerun_calls
  rerun_calls-SameDue [] now session s h = record { due = refl; timeouts = refl }
  rerun_calls-SameDue (meta ∷ metas) now session s h =
      Ensures-bind (SameDue now s) (SameDue now s)
        (schedule_func_call env
          (call_of env now session (or_default [] (lookup meta.func_name s.func_app_map)) meta) s)
        _
        (schedule_func_call-SameDue
          (call_of env now session (or_default [] (lookup meta.func_name s.func_app_map)) meta) s h)
        (λ s' d.
          Ensures-map (SameDue now s') (SameDue now s)
            (λ s'' e. record { due = e.due ∙ d.due; timeouts = e.timeouts ∙ d.timeouts })
            (rerun_calls env now session metas s')
            (rerun_calls-SameDue metas now session s' (subst TakeTime (sym d.timeouts) h)))

  -- One item fewer is due.
  record OneLess (now : TimePoint) (s s' : Scheduler D) : Type 0 where
    due : suc (due_count now s'.rerun_check_queue) ≡ due_count now s.rerun_check_queue
    timeouts : s'.func_trigger_timeout_map ≡ s.func_trigger_timeout_map

  rerun_item-OneLess :
      (now : TimePoint) (item : RerunCheckQueueItem) (s : Scheduler D)
      → TakeTime s.func_trigger_timeout_map
      → 0 < due_count now s.rerun_check_queue
      → Ensures (OneLess now s) (rerun_item env now item s)
  unfolding rerun_item
  rerun_item-OneLess now item s h some_due =
      Ensures-bind_any (OneLess now s) (get_elem? s.triggers item.trigger_ptr) _ (λ t.
        Ensures-bind (SameDue now s) (OneLess now s)
          (rerun_calls env now item.session (action_for_rerun t item.session) s) _
          (rerun_calls-SameDue (action_for_rerun t item.session) now item.session s h)
          (λ s' d. record {
            due = due_count-pop now s'.rerun_check_queue (omega (arith, some_due, d.due)) ∙ d.due;
            timeouts = d.timeouts;
          }))

  -- No item is due.
  abbrev Ended : TimePoint → Option (Scheduler D) → Type 0
  Ended now = Ensures (λ (s' : Scheduler D). due_item now s'.rerun_check_queue ≡ none)

  rerun_from-ends :
      (rest : Scheduler D → Option (Scheduler D)) (now : TimePoint)
      (found : Option RerunCheckQueueItem) (s : Scheduler D)
      → TakeTime s.func_trigger_timeout_map
      → due_item now s.rerun_check_queue ≡ found
      → ((s' : Scheduler D) → OneLess now s s' → Ended now (rest s'))
      → Ended now (rerun_from env rest now found s)
  unfolding rerun_from
  rerun_from-ends rest now none s h e k = e
  rerun_from-ends rest now (some item) s h e k =
      Ensures-bind (OneLess now s) (λ (s' : Scheduler D). due_item now s'.rerun_check_queue ≡ none)
        (rerun_item env now item s) rest
        (rerun_item-OneLess now item s h (due_item-some now s.rerun_check_queue item e)) k

  rerun_loop-ends :
      (fuel : ℕ) (now : TimePoint) (s : Scheduler D)
      → TakeTime s.func_trigger_timeout_map
      → due_count now s.rerun_check_queue ≤ fuel
      → Ended now (rerun_loop env fuel now s)
  unfolding rerun_loop
  rerun_loop-ends zero now s h enough = none_due now s.rerun_check_queue (omega (arith, enough))
  rerun_loop-ends (suc fuel) now s h enough =
      rerun_from-ends (rerun_loop env fuel now) now (due_item now s.rerun_check_queue) s h refl
        (λ s' less.
          rerun_loop-ends fuel now s' (subst TakeTime (sym less.timeouts) h)
            (omega (arith, less.due, enough)))

  -- The check for overdue functions stops by itself within as many rounds as there are items: after
  -- it no item is due. Every function is awaited for some time, so that one that is called again is
  -- not overdue at once.
  pub rerun_check-ends :
      (now : TimePoint) (s : Scheduler D)
      → TakeTime s.func_trigger_timeout_map
      → Ensures
          (λ (s' : Scheduler D). due_item now s'.rerun_check_queue ≡ none)
          (rerun_check env now s)
  unfolding rerun_check
  rerun_check-ends now s h =
      rerun_loop-ends (length s.rerun_check_queue) now s h (due_count-le now s.rerun_check_queue)

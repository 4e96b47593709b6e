-- ===== src/Scheduler/Responses/Waits.antt =====
-- pheromone/src/scheduler/scheduler_server.cpp: to schedule a call leaves the calls that wait for
-- objects alone.
use demeter.Prelude.{
  Option-cases, ◌>>=◌, Ensures, if-both, Ensures-bind_any, Ensures-map, length, get_elem?,
  or_default, lookup, Str, nat_eq, str_eq, ℕ, ◌%◌, ◌≡◌, inl, inr, Option, none, some, List, [],
}
use demeter.Trigger.ByTime.{TimePoint}
use demeter.Scheduler.{InflightFuncArgs, DelayFunctionCall, Scheduler, Env}
use demeter.Scheduler.Calls.{
  is_found, send_to_executer, choose_executor, dispatch_call, refuse_call, schedule_func_call,
}
use demeter.Scheduler.Calls.Outcomes.{Keeps, executors_for, arm_reruns-Keeps, refuse_call-Keeps}
use demeter.Scheduler.Arrival.{sized_args}
use demeter.Scheduler.Responses.{inflight_call, ready_call}

module _ {B D : Type 0} (env : Env B D) where
  abbrev pub SameWaits : Scheduler D → Scheduler D → Type 0
  SameWaits s s' = s'.waiting ≡ s.waiting

  dispatch_call-SameWaits :
      (now : TimePoint) (c : DelayFunctionCall D) (id : ℕ) (s : Scheduler D)
      → Ensures (SameWaits s) (dispatch_call env now c id s)
  unfolding dispatch_call
  dispatch_call-SameWaits now c id s =
      Ensures-bind_any (SameWaits s) (send_to_executer env id _ s.helper) _ (λ h.
        (arm_reruns-Keeps env (or_default [] (lookup c.func_name s.func_trigger_timeout_map)) now
          c.func_name c.session_id c.func_args c.arg_flag _).waits)

  chosen-SameWaits :
      (c : DelayFunctionCall D) (s : Scheduler D) (found : Option ℕ × List ℕ)
      → Ensures (SameWaits s) (
          choose_executor env c.func_name found s >>= λ r.
          dispatch_call env c.trigger_time c r.0 r.1)
  unfolding choose_executor
  chosen-SameWaits c s (some id, colds) = dispatch_call-SameWaits c.trigger_time c id _
  chosen-SameWaits c s (none, colds) =
      elim (Option-cases (get_elem? colds ((env.rand_r s.seed).0 % length colds))) [
        | inl outside ↦ rw outside tt
        | inr (id, found) ↦ rw found (dispatch_call-SameWaits c.trigger_time c id _)
      ]

  schedule_func_call-SameWaits :
      (c : DelayFunctionCall D) (s : Scheduler D)
      → Ensures (SameWaits s) (schedule_func_call env c s)
  unfolding schedule_func_call
  schedule_func_call-SameWaits c s =
      if-both (Ensures (SameWaits s)) (is_found (executors_for env s c))
        (choose_executor env c.func_name (executors_for env s c) s >>= λ r.
          dispatch_call env c.trigger_time c r.0 r.1)
        (refuse_call env c s) (chosen-SameWaits c s (executors_for env s c))
        (Ensures-map (Keeps s) (SameWaits s) (λ s' k. k.waits) _ (refuse_call-Keeps env c s))

  pub ready_call-SameWaits :
      (now : TimePoint) (app : Str) (args : InflightFuncArgs D) (s : Scheduler D)
      → Ensures (SameWaits s) (ready_call env now app args s)
  unfolding ready_call
  ready_call-SameWaits now app args s =
      schedule_func_call-SameWaits
        (inflight_call env now app args (sized_args s.key_len_map args.key_args).0)
        (record s { key_len_map = (sized_args s.key_len_map args.key_args).1 })

-- ===== src/Scheduler/Calls.antt =====
-- pheromone/src/scheduler/scheduler_server.cpp: the functions that send a call to an executor, or to
-- the coordinator where no executor is free.
pub mod Free
pub mod Outcomes
pub mod Runs
use demeter.Prelude.{
  ltb, if◌then◌else◌, ◌>>=◌, contains, add, length, get_elem?, Map, or_default, lookup, insert,
  update, ◌==◌, Str, bytes, nat_eq, str_eq, ℕ, suc, ◌+◌, ◌*◌, ◌%◌, Bool, true, false, ◌&&◌, ◌||◌,
  Option, none, some, List, [], ◌∷◌, ◌++◌, map,
}
use demeter.Names.{BucketKey, delimiter}
use demeter.Trigger.{TriggerFunctionMetadata}
use demeter.Trigger.Any.{notify_source_func}
use demeter.Trigger.ByTime.{TimePoint}
use demeter.Coordinator.{to_string}
use demeter.Scheduler.{
  DelayFunctionCall, RerunTriggerTimeout, to_executor, CommHelper, Scheduler, Env, emit,
}
use demeter.Scheduler.Packing.{flatten, forward_call_via_helper}
use demeter.Scheduler.Updates.{modify_at}
use demeter.Scheduler.Arrival.{check_object_arrival}

-- 0: empty, 1: available
abbrev pub is_avail : ℕ → Bool
is_avail st = st == 0 || st == 1

unfoldable pub get_avail_executor_num : Map ℕ ℕ → ℕ
get_avail_executor_num [] = 0
get_avail_executor_num ((id, st) ∷ statuses) =
    let rest = get_avail_executor_num statuses in if is_avail st then suc rest else rest

-- The first warm executor, which ends the loop, and the cold ones before it.
unfoldable pub find_executors : Bool → List ℕ → Map ℕ ℕ → Option ℕ × List ℕ
find_executors shared warm [] = (none, [])
find_executors shared warm ((id, st) ∷ statuses) =
    let (found, colds) = find_executors shared warm statuses in
    if st == 1 && contains warm id
    then (some id, [])
    else if st == 0 || (shared && st == 1)
    then (found, id ∷ colds)
    else (found, colds)

abbrev pub is_found : Option ℕ × List ℕ → Bool
is_found (some id, colds) = true
is_found (none, []) = false
is_found (none, id ∷ colds) = true

-- `func|arg|arg...`
unfoldable pub join_args : Str → List Str → Str
join_args func_name [] = func_name
join_args func_name (arg ∷ args) = join_args (func_name ++ delimiter ∷ arg) args

abbrev pub resource_meta : Str → ℕ → Str
resource_meta cores memory_mb =
    let meta = cores ++ b',' ∷ to_string memory_mb in
    if ltb 255 (length meta) then bytes "0,0" else meta

-- A function call, as an executor reads it.
unfoldable pub call_message : Str → Str → Str → List Str → ℕ → Str → Str
unfolding join_args
call_message client session_id func_name func_args arg_flag meta =
    1 ∷ (arg_flag + 1) % 256 ∷ (if client == [] then 1 else 2) ∷ length meta % 256 ∷ meta
    ++ (session_id ++ delimiter ∷ join_args func_name func_args)

module _ {B D : Type 0} (env : Env B D) where
  -- `send_to_executer` of the channel of an executor, which exists for the configured ones.
  unfoldable pub send_to_executer : ℕ → Str → CommHelper D → Option (CommHelper D)
  send_to_executer id msg h =
      if ltb id env.executor_count then some (emit (to_executor id msg) h) else none

  -- "update rerun check queue": a timeout is in milliseconds, a time in nanoseconds.
  unfoldable pub arm_reruns :
      TimePoint → Str → Str → List Str → ℕ → List RerunTriggerTimeout → Scheduler D → Scheduler D
  unfolding modify_at
  arm_reruns now func_name session_id args arg_flag [] s = s
  arm_reruns now func_name session_id args arg_flag (meta ∷ metas) s =
      arm_reruns now func_name session_id args arg_flag metas (record s {
        triggers =
            modify_at (λ t. notify_source_func t func_name session_id args arg_flag)
              meta.trigger_ptr s.triggers;
        rerun_check_queue =
            s.rerun_check_queue
            ++ record {
              check_time = now + meta.timeout * 1000000;
              session = session_id;
              trigger_ptr = meta.trigger_ptr;
            }
              ∷ [];
      })

  -- The executor: a warm one, or one of the cold ones at random, which is warm from now on.
  unfoldable pub choose_executor : Str → Option ℕ × List ℕ → Scheduler D → Option (ℕ × Scheduler D)
  choose_executor func_name (some id, colds) s =
      some (id, record s { seed = (env.rand_r s.seed).1 })
  choose_executor func_name (none, colds) s = do
    let (r, seed) = env.rand_r s.seed
    id ← get_elem? colds (r % length colds)
    some (
      id,
      record s {
        seed = seed;
        function_executor_map = update func_name [] (add id) s.function_executor_map;
      },
    )

  -- A call that has an executor.
  unfoldable pub dispatch_call :
      TimePoint → DelayFunctionCall D → ℕ → Scheduler D → Option (Scheduler D)
  unfolding send_to_executer call_message arm_reruns
  dispatch_call now c id s = do
    h ←
        send_to_executer id
          (call_message (or_default [] (lookup c.session_id s.session_client_addr_map)) c.session_id
            c.func_name c.func_args c.arg_flag
            (resource_meta (env.string_of_double c.cpu_cores) c.memory_mb))
          s.helper
    some (
        arm_reruns now c.func_name c.session_id c.func_args c.arg_flag
          (or_default [] (lookup c.func_name s.func_trigger_timeout_map))
          (record s { helper = h; executor_status_map = insert id 2 s.executor_status_map }))

  -- A call for which no executor is free: it waits, is rejected, or goes to the coordinator.
  unfoldable pub refuse_call : DelayFunctionCall D → Scheduler D → Option (Scheduler D)
  unfolding flatten forward_call_via_helper
  refuse_call c s =
      if ltb 0 env.sched_delay_time
      then some (record s { delay_call_queue = s.delay_call_queue ++ c ∷ [] })
      else if env.reject_extra_req
      then some s
      else (do
        args ← flatten c.arg_flag c.func_args
        forward_call_via_helper env c.session_id c.app_name (c.func_name ∷ []) (args ∷ [])
            c.arg_flag s)

  -- The arguments are those of a `DelayFunctionCall`, with the time of the call.
  unfoldable pub schedule_func_call : DelayFunctionCall D → Scheduler D → Option (Scheduler D)
  unfolding find_executors choose_executor dispatch_call refuse_call
  schedule_func_call c s =
      let executors =
        find_executors env.shared_executor
          (or_default [] (lookup c.func_name s.function_executor_map)) s.executor_status_map in
      if is_found executors
      then (do
        (id, s') ← choose_executor c.func_name executors s
        dispatch_call c.trigger_time c id s')
      else refuse_call c s

  -- The calls of a list, in order.
  unfoldable pub schedule_calls : List (DelayFunctionCall D) → Scheduler D → Option (Scheduler D)
  unfolding schedule_func_call
  schedule_calls [] s = some s
  schedule_calls (c ∷ cs) s = do s' ← schedule_func_call c s; schedule_calls cs s'

  abbrev pub call_of : TimePoint → Str → Str → TriggerFunctionMetadata → DelayFunctionCall D
  call_of now session_id app_name meta = record {
    session_id = session_id;
    app_name = app_name;
    func_name = meta.func_name;
    func_args = meta.func_args;
    arg_flag = meta.arg_flag;
    cpu_cores = env.zero_cores;
    memory_mb = 0;
    trigger_time = now;
  }

  unfoldable pub check_trigger :
      TimePoint → BucketKey → Str → Scheduler D → Option (List Str × Scheduler D)
  unfolding check_object_arrival schedule_calls
  check_trigger now b session_id s = do
    (active_triggers, metas, s') ← check_object_arrival now b s
    s'' ←
        schedule_calls
          (map (call_of now session_id (or_default [] (lookup b.bucket s'.bucket_app_map))) metas)
          s'
    some (active_triggers, s'')

-- ===== src/Scheduler/Calls/Outcomes.antt =====
-- pheromone/src/scheduler/scheduler_server.cpp, `schedule_func_call`: a call goes to an executor that
-- is free, or to none.
use demeter.Prelude.{
  ltb, Bool-cases, ◌>>=◌, Ensures, Ensures-bind, if-both, Ensures-bind_any, Ensures-map, get_elem?,
  or_default, lookup, insert, Str, nat_eq, str_eq, ℕ, ◌≡◌, refl, ap, ◌∙◌, ◌⊎◌, inl, inr, false,
  Option, none, some, List, [], ◌∷◌, ◌++◌,
}
use demeter.Trigger.ByTime.{TimePoint}
use demeter.Scheduler.{DelayFunctionCall, RerunTriggerTimeout, CommHelper, Scheduler, Env}
use demeter.Scheduler.Forward.Effects.{
  executor_messages, executor_messages-append, executor_messages-forward_func_call,
}
use demeter.Scheduler.Packing.{
  flatten, forward_call_via_helper, forward_keys, total_data_size, real_argss,
}
use demeter.Scheduler.Calls.{
  find_executors, is_found, call_message, resource_meta, send_to_executer, arm_reruns,
  choose_executor, dispatch_call, refuse_call, schedule_func_call,
}
use demeter.Scheduler.Calls.Free.{IsFree, IsMap, AllFree, find_executors-IsFree, All-get_elem?}

-- The executors' states, what they got, and the calls that wait are as before.
pub record Keeps {D : Type 0} (s s' : Scheduler D) : Type 0 where
  pub statuses : s'.executor_status_map ≡ s.executor_status_map
  pub messages : executor_messages s'.helper.sent ≡ executor_messages s.helper.sent
  pub waits : s'.waiting ≡ s.waiting

-- And so is the queue of overdue functions.
pub record Passes {D : Type 0} (s s' : Scheduler D) : Type 0 where
  pub kept : Keeps s s'
  pub queue : s'.rerun_check_queue ≡ s.rerun_check_queue
  pub timeouts : s'.func_trigger_timeout_map ≡ s.func_trigger_timeout_map

module _ {B D : Type 0} (env : Env B D) where
  -- The message that an executor gets for a call.
  abbrev pub message_of : Scheduler D → DelayFunctionCall D → Str
  message_of s c =
      call_message (or_default [] (lookup c.session_id s.session_client_addr_map)) c.session_id
        c.func_name c.func_args c.arg_flag
        (resource_meta (env.string_of_double c.cpu_cores) c.memory_mb)

  -- The executors that a call may go to.
  abbrev pub executors_for : Scheduler D → DelayFunctionCall D → Option ℕ × List ℕ
  executors_for s c =
      find_executors env.shared_executor
        (or_default [] (lookup c.func_name s.function_executor_map)) s.executor_status_map

  -- One executor that was free has the call, and awaits it.
  pub record Gives (s : Scheduler D) (c : DelayFunctionCall D) (s' : Scheduler D) : Type 0 where
    pub executor : ℕ
    pub free : IsFree s.executor_status_map executor
    pub statuses : s'.executor_status_map ≡ insert executor 2 s.executor_status_map
    pub messages :
        executor_messages s'.helper.sent
        ≡ executor_messages s.helper.sent ++ (executor, message_of s c) ∷ []
    pub waits : s'.waiting ≡ s.waiting

  on_helper-Passes :
      (s : Scheduler D) (o : Option (CommHelper D)) (f : CommHelper D → Scheduler D)
      → ((h : CommHelper D)
          → (executor_messages h.sent ≡ executor_messages s.helper.sent)
          → Passes s (f h))
      → Ensures (λ (h : CommHelper D). executor_messages h.sent ≡ executor_messages s.helper.sent) o
      → Ensures (Passes s) (o >>= λ h. some (f h))
  on_helper-Passes s o f k h =
      Ensures-bind
        (λ (h : CommHelper D). executor_messages h.sent ≡ executor_messages s.helper.sent)
        (Passes s) o _ h k

  forward_keys-Passes :
      (client session app : Str) (names : List Str) (argss : List (List Str)) (flag size : ℕ)
      (s : Scheduler D)
      → Ensures (Passes s) (forward_keys env client session app names argss flag size s)
  unfolding forward_keys
  forward_keys-Passes client session app names argss flag size s =
      if-both (Ensures (Passes s)) (ltb size 10240) _ _
        (Ensures-bind_any (Passes s) (real_argss env.shm flag argss s.key_len_map) _ (λ r.
          on_helper-Passes s _ _
            (λ h e. record {
              kept = record { statuses = refl; messages = e; waits = refl };
              queue = refl;
              timeouts = refl;
            })
            (executor_messages-forward_func_call env.zero_cores client app names r.0 0 session
              s.helper)))
        (on_helper-Passes s _ _
          (λ h e. record {
            kept = record { statuses = refl; messages = e; waits = refl };
            queue = refl;
            timeouts = refl;
          })
          (executor_messages-forward_func_call env.zero_cores client app names argss flag session
            s.helper))

  pub forward_call_via_helper-Passes :
      (session app : Str) (names : List Str) (argss : List (List Str)) (flag : ℕ) (s : Scheduler D)
      → Ensures (Passes s) (forward_call_via_helper env session app names argss flag s)
  unfolding forward_call_via_helper
  forward_call_via_helper-Passes session app names argss flag s =
      if-both (Ensures (Passes s)) (ltb 0 flag) _ _
        (Ensures-bind_any (Passes s) (total_data_size argss) _
          (λ size. forward_keys-Passes _ session app names argss flag size s))
        (on_helper-Passes s _ _
          (λ h e. record {
            kept = record { statuses = refl; messages = e; waits = refl };
            queue = refl;
            timeouts = refl;
          })
          (executor_messages-forward_func_call env.zero_cores _ app names argss flag session
            s.helper))

  pub refuse_call-Passes :
      (c : DelayFunctionCall D) (s : Scheduler D) → Ensures (Passes s) (refuse_call env c s)
  unfolding refuse_call
  refuse_call-Passes c s =
      if-both (Ensures (Passes s)) (ltb 0 env.sched_delay_time) _ _
        (record {
          kept = record { statuses = refl; messages = refl; waits = refl };
          queue = refl;
          timeouts = refl;
        })
        (if-both (Ensures (Passes s)) env.reject_extra_req _ _
          (record {
            kept = record { statuses = refl; messages = refl; waits = refl };
            queue = refl;
            timeouts = refl;
          })
          (Ensures-bind_any (Passes s) (flatten c.arg_flag c.func_args) _ (λ args.
            forward_call_via_helper-Passes c.session_id c.app_name (c.func_name ∷ []) (args ∷ [])
              c.arg_flag s)))

  pub refuse_call-Keeps :
      (c : DelayFunctionCall D) (s : Scheduler D) → Ensures (Keeps s) (refuse_call env c s)
  refuse_call-Keeps c s =
      Ensures-map (Passes s) (Keeps s) (λ s' p. p.kept) (refuse_call env c s)
        (refuse_call-Passes c s)

  pub arm_reruns-Keeps :
      (metas : List RerunTriggerTimeout) (now : TimePoint) (func session : Str) (args : List Str)
      (flag : ℕ) (s : Scheduler D)
      → Keeps s (arm_reruns env now func session args flag metas s)
  unfolding arm_reruns
  arm_reruns-Keeps [] now func session args flag s = record {
    statuses = refl;
    messages = refl;
    waits = refl;
  }
  arm_reruns-Keeps (meta ∷ metas) now func session args flag s =
      let rest = arm_reruns-Keeps metas now func session args flag _ in
      record { statuses = rest.statuses; messages = rest.messages; waits = rest.waits }

  dispatch_call-Gives :
      (c : DelayFunctionCall D) (id : ℕ) (s s0 : Scheduler D)
      → Keeps s0 s
      → (s.session_client_addr_map ≡ s0.session_client_addr_map)
      → IsFree s0.executor_status_map id
      → Ensures (Gives s0 c) (dispatch_call env c.trigger_time c id s)
  unfolding dispatch_call send_to_executer executor_messages
  dispatch_call-Gives c id s s0 kept clients free = elim (Bool-cases (ltb id env.executor_count)) [
    | inr outside ↦ rw outside tt
    | inl inside ↦ rw inside (
        let armed =
          arm_reruns-Keeps (or_default [] (lookup c.func_name s.func_trigger_timeout_map))
            c.trigger_time c.func_name c.session_id c.func_args c.arg_flag _ in
        record {
          executor = id;
          free = free;
          statuses = armed.statuses ∙ ap (insert id 2) kept.statuses;
          messages =
              cc (armed.messages, executor_messages-append s.helper.sent _, kept.messages, clients);
          waits = armed.waits ∙ kept.waits;
        })
  ]

  -- The outcomes of `schedule_func_call`.
  abbrev pub IsOutcome : Scheduler D → DelayFunctionCall D → Scheduler D → Type 0
  IsOutcome s c s' = Gives s c s' ⊎ ((is_found (executors_for s c) ≡ false) × Keeps s s')

  chosen-IsOutcome :
      (c : DelayFunctionCall D) (s : Scheduler D) (found : Option ℕ × List ℕ)
      → AllFree s.executor_status_map found
      → Ensures (Gives s c) (
          choose_executor env c.func_name found s >>= λ r.
          dispatch_call env c.trigger_time c r.0 r.1)
  unfolding choose_executor
  chosen-IsOutcome c s (some id, colds) free =
      dispatch_call-Gives c id _ s (record { statuses = refl; messages = refl; waits = refl }) refl
        free.0
  chosen-IsOutcome c s (none, colds) free =
      Ensures-bind
        (λ (r : ℕ × Scheduler D).
          (IsFree s.executor_status_map r.0)
          × Keeps s r.1
          × (r.1.session_client_addr_map ≡ s.session_client_addr_map))
        (Gives s c) _ _
        (Ensures-bind (IsFree s.executor_status_map)
          (λ (r : ℕ × Scheduler D).
            (IsFree s.executor_status_map r.0)
            × Keeps s r.1
            × (r.1.session_client_addr_map ≡ s.session_client_addr_map))
          (get_elem? colds _) _ (All-get_elem? (IsFree s.executor_status_map) colds _ free.1)
          (λ id f. (f, record { statuses = refl; messages = refl; waits = refl }, refl)))
        (λ r k. dispatch_call-Gives c r.0 r.1 s k.1 k.2 k.0)

  -- A call that is scheduled goes to at most one executor. That executor was empty or available,
  -- gets the message of the call and awaits it from then on; no other executor's state changes.
  -- If none was found, no executor gets anything.
  pub schedule_func_call-IsOutcome :
      (c : DelayFunctionCall D) (s : Scheduler D)
      → IsMap s.executor_status_map
      → Ensures (IsOutcome s c) (schedule_func_call env c s)
  unfolding schedule_func_call
  schedule_func_call-IsOutcome c s h = elim (Bool-cases (is_found (executors_for s c))) [
    | inl found ↦ rw found (
        Ensures-map (Gives s c) (IsOutcome s c) (λ s' g. inl g) _
          (chosen-IsOutcome c s (executors_for s c)
            (find_executors-IsFree env.shared_executor _ s.executor_status_map h)))
    | inr missing ↦
        rw missing (
          Ensures-map (Keeps s) (IsOutcome s c) (λ s' k. inr (missing, k)) _
            (refuse_call-Keeps c s))
  ]

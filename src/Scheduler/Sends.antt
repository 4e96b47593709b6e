-- ===== src/Scheduler/Sends.antt =====
-- pheromone/src/scheduler/scheduler_server.cpp, in the loop of `run`: the objects that executors send.
use demeter.Prelude.{
  ltb, if◌then◌else◌, ◌>>=◌, contains, length, take, drop, ℤ, Map, or_default, lookup, insert,
  update, ◌==◌, Str, bytes, nat_eq, str_eq, pos, negsuc, ℕ, ◌+◌, ◌-◌, ◌/◌, ◌%◌, ◌||◌, Option, none,
  some, List, [], ◌∷◌, ◌++◌, map,
}
use demeter.Names.{from_session_key, split, delimiter}
use demeter.Coordinator.Apps.{stoi}
use demeter.Trigger.ByTime.{TimePoint}
use demeter.Scheduler.{new_app_info, DelayFunctionCall, Scheduler, Env, on_helper}
use demeter.Scheduler.Comm.{put_kvs_async}
use demeter.Scheduler.Forward.{client_response_to, notify_put}
use demeter.Scheduler.Packing.{forward_call_via_helper}
use demeter.Scheduler.Calls.{get_avail_executor_num, schedule_calls, check_trigger}

abbrev pub bucket_name_direct_invoc : Str
bucket_name_direct_invoc = bytes "direct_invoc"

-- A C string: the bytes before the first 0.
unfoldable pub c_string : Str → Str
c_string [] = []
c_string (c ∷ s) = let rest = c_string s in if c == 0 then [] else c ∷ rest

-- What `infos` holds: `&` binds to the session alone, the others are copies.
pub record SendObject : Type 0 where
  pub session_id : Str
  pub src_function : Str
  pub tgt_function : Str
  pub bucket : Str
  pub session_key : Str
  pub value : Str

unfoldable pub unpack_infos : List Str → Option SendObject
unpack_infos (a ∷ b ∷ c ∷ d ∷ e ∷ v ∷ rest) = some (record {
  session_id = a;
  src_function = b;
  tgt_function = c;
  bucket = d;
  session_key = e;
  value = v;
})
unpack_infos infos = none

unfoldable pub obj_name : SendObject → Str
obj_name o = o.bucket ++ delimiter ∷ o.session_key

-- An `int` as a size or an `unsigned`.
abbrev size_of : ℤ → ℕ
size_of (pos n) = n
size_of (negsuc n) = 0x100000000 - n - 1

abbrev pub push_request {ℓ} : {A : Type ℓ} → Str → A → Map Str (List A) → Map Str (List A)
push_request key request = update key [] (λ requests. requests ++ request ∷ [])

module _ {B D : Type 0} (env : Env B D) where
  -- The new object is recorded; its size is in the message, or is that of the packed value.
  unfoldable pub record_value : ℕ → SendObject → Scheduler D → Option (Scheduler D)
  unfolding obj_name
  record_value packing o s =
      if packing == 1
      then some (record s {
        key_val_map = insert (obj_name o) o.value s.key_val_map;
        key_len_map = insert (obj_name o) (length o.value) s.key_len_map;
      })
      else if packing == 2
      then (do
        size_int ← stoi o.value
        some (record s { key_len_map = insert (obj_name o) (size_of size_int) s.key_len_map }))
      else some s

  -- The arguments of a direct invocation, and their flag.
  unfoldable pub direct_args : ℕ → SendObject → List Str × ℕ
  unfolding obj_name
  direct_args packing o =
      if packing == 1
      then (o.value ∷ [], 0)
      else if packing == 2
      then (obj_name o ∷ o.value ∷ [], 1)
      else ([], 1)

  abbrev pub direct_call : TimePoint → SendObject → Str → List Str × ℕ → Str → DelayFunctionCall D
  direct_call now o app_name args func = record {
    session_id = o.session_id;
    app_name = app_name;
    func_name = func;
    func_args = args.0;
    arg_flag = args.1;
    cpu_cores = env.zero_cores;
    memory_mb = 0;
    trigger_time = now;
  }

  -- "batch forwarding": as many functions as there are free executors run here.
  unfoldable pub invoke_all :
      TimePoint → SendObject → Str → List Str × ℕ → List Str → Scheduler D → Option (Scheduler D)
  unfolding get_avail_executor_num schedule_calls forward_call_via_helper
  invoke_all now o app_name args target_funcs s =
      let avail_executors = get_avail_executor_num s.executor_status_map in
      if ltb avail_executors (length target_funcs)
      then (do
        s' ←
            schedule_calls env
              (map (direct_call now o app_name args) (take avail_executors target_funcs)) s
        let remote_funcs = drop avail_executors target_funcs
        if env.reject_extra_req
            then some s'
            else forward_call_via_helper env o.session_id app_name remote_funcs
                (map (λ func. args.0) remote_funcs) args.1 s')
      else schedule_calls env (map (direct_call now o app_name args) target_funcs) s

  unfoldable pub invoke_direct :
      TimePoint → ℕ → SendObject → Str → List Str → Scheduler D → Option (Scheduler D)
  unfolding direct_args invoke_all
  invoke_direct now packing o app_name deps s =
      let args = direct_args packing o in
      if o.tgt_function == []
      then invoke_all now o app_name args deps s
      else if contains deps o.tgt_function
      then schedule_calls env (direct_call now o app_name args o.tgt_function ∷ []) s
      else some s

  unfoldable pub check_and_notify : TimePoint → ℕ → SendObject → Scheduler D → Option (Scheduler D)
  unfolding check_trigger notify_put
  check_and_notify now packing o s = do
    let b = from_session_key o.bucket o.session_key
    (active_triggers, s') ← check_trigger env now b o.session_id s
    let client = or_default [] (lookup o.session_id s'.session_client_addr_map)
    let val = or_default [] (lookup (obj_name o) s'.key_val_map)
    let h =
        if packing == 1
        then notify_put b active_triggers client val s'.helper
        else if packing == 2
        then notify_put b active_triggers client [] s'.helper
        else s'.helper
    some (record s' { helper = h; call_id = (s'.call_id + length active_triggers) % 0x100000000 })

  -- `str[1] == 2`: an object of the ephemeral store
  unfoldable pub send_ephemeral : TimePoint → ℕ → SendObject → Scheduler D → Option (Scheduler D)
  unfolding record_value invoke_direct check_and_notify
  send_ephemeral now packing o s = do
    s' ← record_value packing o s
    let app_name = or_default [] (lookup o.src_function s'.func_app_map)
    let info = or_default new_app_info (lookup app_name s'.app_info_map)
    elim (lookup o.src_function info.direct_deps) [
      | some deps ↦ invoke_direct now packing o app_name deps s'
      | none ↦
          if o.bucket == bucket_name_direct_invoc
          then some s'
          else check_and_notify now packing o s'
    ]

  -- The content of the object: packed in the message, or in shared memory.
  unfoldable pub output_of : ℕ → SendObject → Option Str
  unfolding obj_name
  output_of packing o =
      if packing == 1
      then some o.value
      else if packing == 2
      then (do size_int ← stoi o.value; some (env.shm (obj_name o) (size_of size_int)))
      else some []

  -- `str[1] == 3`: an object of the key-value store, which is not sent with another packing flag
  unfoldable pub send_durable : ℕ → ℕ → ℕ → ℕ → SendObject → Scheduler D → Option (Scheduler D)
  unfolding output_of put_kvs_async
  send_durable time executor_id req_id packing o s = do
    output ← output_of packing o
    h ←
        if packing == 1 || packing == 2
        then put_kvs_async env.serialize_lww time o.session_key output s.helper
        else some s.helper
    some (record s {
      helper = h;
      key_ksv_put_map =
          push_request o.session_key (record { executor_id = executor_id; req_id = req_id })
            s.key_ksv_put_map;
    })

  -- `str[1] == 4`: the response to the client
  unfoldable pub send_client : ℕ → SendObject → Scheduler D → Option (Scheduler D)
  unfolding output_of client_response_to
  send_client packing o s = do
    output_data ← output_of packing o
    some (
        on_helper
          (client_response_to (or_default [] (lookup o.session_id s.session_client_addr_map))
            (or_default [] (lookup o.src_function s.func_app_map)) output_data s.helper)
          s)

  -- The send object handler: the request's id, the packing flag and the infos. One with fewer
  -- than six infos is dropped.
  unfoldable pub send_object : TimePoint → ℕ → ℕ → Str → Scheduler D → Option (Scheduler D)
  unfolding unpack_infos send_ephemeral send_durable send_client
  send_object now executor_id kind (req_id ∷ packing ∷ params) s =
      elim (unpack_infos (split (c_string params) delimiter)) [
        | none ↦ some s
        | some o ↦
            if kind == 2
            then send_ephemeral now packing o s
            else if kind == 3
            then send_durable (now / 1000000) executor_id req_id packing o s
            else send_client packing o s
      ]
  send_object now executor_id kind message s = none

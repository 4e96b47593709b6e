-- ===== src/Scheduler/Tests.antt =====
-- A concrete scheduler with two executors and three I/O threads, for the theorems on it.
use demeter.Prelude.{
  nat_eqb_iff, Bool-cases, Ensures, contains, length, take, lookup, ◌==◌, Str, bytes, str_eqb,
  str_eqb_iff, nat_eq, str_eq, ℕ, ◌+◌, ◌%◌, ◌≡◌, refl, inl, inr, false, none, some, [], ◌∷◌, arith,
}
use demeter.Trigger.Tests.{Message, immediate, messages}
use demeter.Coordinator.{to_string, tcp_address}
use demeter.Scheduler.{
  InflightFuncArgs, DelayFunctionCall, data_resp, to_data_server, to_data_client, copy, emit,
  CommHelper, Scheduler, Env,
}
use demeter.Scheduler.Comm.{
  u32, data_access_client_port, get_key_address, send_data_req_base, get_kvs_async,
}
use demeter.Scheduler.Comm.Threads.{IsReady, Served, get_kvs_async-IsReady}
use demeter.Scheduler.Data.{get_shm_obj, handle_data_request, handle_data_response}
use demeter.Scheduler.Data.Exchange.{send_data_req_base-exchange}
use demeter.Scheduler.Calls.{find_executors, schedule_func_call}
use demeter.Scheduler.Calls.Free.{IsMap}
use demeter.Scheduler.Calls.Outcomes.{Gives, IsOutcome, schedule_func_call-IsOutcome}
use demeter.Scheduler.Calls.Runs.{schedule_func_call-Gives}
use demeter.Trigger.Any.{new_immediate}
use demeter.Scheduler.Reruns.{due_item, rerun_check}
use demeter.Scheduler.Reruns.Ends.{TakeTime, rerun_check-ends}
use demeter.Scheduler.Responses.{call_with_keys, handle_data_resp}
use demeter.Scheduler.Responses.Index.{awaits, listed, IsIndexed}
use demeter.Scheduler.Responses.Arrive.{Arrived, handle_data_resp-Arrived}
use demeter.Scheduler.Responses.Requested.{Requested, call_with_keys-Requested}

abbrev pub env : Env Message ℕ
env = record {
  pb = messages;
  empty_primitive = immediate (record { function = [] });
  zero_cores = 0;
  string_of_double = to_string;
  rand_r = λ seed. (seed, seed + 1);
  shm = λ name size. take size (bytes "pixels");
  serialize_lww = λ time val. val;
  deserialize_lww = λ payload. payload;
  executor_count = 2;
  shared_executor = false;
  reject_extra_req = false;
  sched_delay_time = 0;
}

abbrev picture : Str
picture = bytes "pics|cat"

abbrev helper : CommHelper ℕ
helper = record {
  ip = bytes "10.0.0.1";
  routing_threads = [];
  app_coord_map = (bytes "app", record { ip = bytes "10.0.0.9"; tid = 0 }) ∷ [];
  bucket_coord_map = [];
  rid = 0;
  io_thread_count = 3;
  io_thread_id = 0;
  key_address_cache = (picture, bytes "tcp://10.0.0.2:4400") ∷ [];
  secondary_thread_msg_queues = [] ∷ [] ∷ [];
  sent = [];
}

-- Executor 0 has run `resize`, and executor 1 is empty.
abbrev pub worker : Scheduler ℕ
worker = record {
  helper = helper;
  seed = 7;
  delay_call_queue = [];
  key_len_map = [];
  key_val_map = [];
  session_client_addr_map = [];
  rerun_check_queue = [];
  func_trigger_timeout_map = [];
  call_id = 4;
  waiting = record { call_id_inflight_args_map = []; key_call_id_map = [] };
  key_remote_get_map = [];
  key_ksv_put_map = [];
  app_info_map = [];
  func_app_map = (bytes "resize", bytes "app") ∷ [];
  bucket_app_map = [];
  function_executor_map = (bytes "resize", 0 ∷ []) ∷ [];
  executor_status_map = (0, 1) ∷ (1, 0) ∷ [];
  bucket_triggers_map = [];
  triggers = [];
}

abbrev resize : DelayFunctionCall ℕ
resize = record {
  session_id = bytes "0123456789abcdef";
  app_name = bytes "app";
  func_name = bytes "resize";
  func_args = bytes "100x100" ∷ [];
  arg_flag = 0;
  cpu_cores = 1;
  memory_mb = 128;
  trigger_time = 0;
}

-- A call of `resize` on the picture.
abbrev on_picture : InflightFuncArgs ℕ
on_picture = record {
  func_name = bytes "resize";
  session_id = bytes "0123456789abcdef";
  key_args = picture ∷ [];
  inflight_args = picture ∷ [];
  arg_flag = 1;
  cpu_cores = 1;
  memory_mb = 128;
}

-- Call 3 waits for the picture.
abbrev waiting_worker : Scheduler ℕ
waiting_worker = record worker {
  waiting = record {
    call_id_inflight_args_map = (3, on_picture) ∷ [];
    key_call_id_map = (picture, 3 ∷ []) ∷ [];
  };
}

worker-IsIndexed : IsIndexed worker.waiting
unfolding listed awaits lookup contains
worker-IsIndexed = record { agree = λ key cid. refl; sets = λ key. tt }

waiting_worker-IsIndexed : IsIndexed waiting_worker.waiting
unfolding listed awaits lookup contains
waiting_worker-IsIndexed = record {
  agree = λ key cid. ground (arith, str_eqb_iff picture key, nat_eqb_iff 3 cid);
  sets = λ key. ground (arith, str_eqb_iff picture key);
}

helper-IsReady : IsReady helper
helper-IsReady = record {
  started = omega arith;
  small = omega arith;
  current = λ many. omega arith;
  queues = refl;
}

worker-IsMap : IsMap worker.executor_status_map
unfolding contains
worker-IsMap = (refl, (refl, tt))

schedule_func_call-IsOutcome_example :
    Ensures (IsOutcome env worker resize) (schedule_func_call env resize worker)
schedule_func_call-IsOutcome_example = schedule_func_call-IsOutcome env resize worker worker-IsMap

schedule_func_call-Gives_example :
    (s' : Scheduler ℕ) × (schedule_func_call env resize worker ≡ some s')
    × Gives env worker resize s'
schedule_func_call-Gives_example =
    schedule_func_call-Gives env resize worker worker-IsMap (omega arith, (omega arith, tt))
      (unfold find_executors lookup contains str_eqb in refl)

handle_data_resp-Arrived_example :
    Ensures
      (λ (s' : Scheduler ℕ). Arrived picture waiting_worker.waiting s'.waiting)
      (handle_data_resp env 0 picture 6 waiting_worker)
handle_data_resp-Arrived_example =
    handle_data_resp-Arrived env 0 picture 6 waiting_worker waiting_worker-IsIndexed

call_with_keys-Requested_example :
    Ensures
      (λ (s' : Scheduler ℕ). Requested 4 [] (picture ∷ []) worker.waiting s'.waiting)
      (call_with_keys env 0 (bytes "app") on_picture worker)
call_with_keys-Requested_example =
    call_with_keys-Requested env 0 (bytes "app") on_picture worker (unfold lookup in refl)
      worker-IsIndexed

send_data_req_base-exchange_example :
    (asked answer : Str) × (send_data_req_base picture 1 helper
      ≡ emit (to_data_server (get_key_address picture helper) asked) helper)
    × (handle_data_request env.shm ((picture, 6) ∷ []) asked helper
        ≡ some (
            emit
              (to_data_client (tcp_address helper.ip ((1 + data_access_client_port) % u32)) answer)
              helper))
    × (handle_data_response answer helper
        ≡ some (
          data_resp picture (length (get_shm_obj env.shm ((picture, 6) ∷ []) picture)),
          emit (copy picture (get_shm_obj env.shm ((picture, 6) ∷ []) picture)) helper,
        ))
send_data_req_base-exchange_example =
    send_data_req_base-exchange env.shm ((picture, 6) ∷ []) picture 1 helper helper (omega arith)
      (unfold get_key_address lookup str_eqb in refl)
      (unfold get_shm_obj lookup str_eqb in omega arith)

get_kvs_async-IsReady_example :
    (h' : CommHelper ℕ) × (get_kvs_async picture helper ≡ some h')
    × IsReady h'
    × Served picture helper h'
get_kvs_async-IsReady_example = get_kvs_async-IsReady picture helper helper-IsReady

-- A result of `resize` is overdue since 5.
abbrev overdue_worker : Scheduler ℕ
overdue_worker = record worker {
  triggers = new_immediate (bytes "resize") (bytes "t") ∷ [];
  rerun_check_queue =
      record { check_time = 5; session = bytes "0123456789abcdef"; trigger_ptr = 0 } ∷ [];
  func_trigger_timeout_map = (bytes "resize", record { trigger_ptr = 0; timeout = 100 } ∷ []) ∷ [];
}

overdue_worker-TakeTime : TakeTime overdue_worker.func_trigger_timeout_map
unfolding lookup
overdue_worker-TakeTime func = elim (Bool-cases (bytes "resize" == func)) [
  | inl hit ↦ rw hit (omega arith, tt)
  | inr miss ↦ rw miss tt
]

rerun_check-ends_example :
    Ensures
      (λ (s' : Scheduler ℕ). due_item 7 s'.rerun_check_queue ≡ none)
      (rerun_check env 7 overdue_worker)
rerun_check-ends_example = rerun_check-ends env 7 overdue_worker overdue_worker-TakeTime

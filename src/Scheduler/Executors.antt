-- ===== src/Scheduler/Executors.antt =====
-- pheromone/src/scheduler/scheduler_server.cpp, the first part of the loop of `run`: the messages
-- of the executors. The first byte is the executor's id plus one, the second is the request.
use demeter.Prelude.{
  ltb, if◌then◌else◌, ◌>>=◌, length, get_elem?, take, lookup, insert, update, ◌==◌, Str, nat_eq,
  str_eq, ℕ, ◌+◌, ◌%◌, ◌||◌, Option, none, some, ◌∷◌,
}
use demeter.Names.{split, delimiter}
use demeter.Coordinator.{to_string}
use demeter.Trigger.ByTime.{TimePoint}
use demeter.Scheduler.{Scheduler, Env, on_helper}
use demeter.Scheduler.Comm.{send_data_req, get_kvs_async}
use demeter.Scheduler.Calls.{send_to_executer}
use demeter.Scheduler.Sends.{push_request, send_object}

-- "generic response": the request's id, success, and a value
abbrev pub generic_response : ℕ → Str → Str
generic_response req_id value = 3 ∷ req_id ∷ 1 ∷ value

module _ {B D : Type 0} (env : Env B D) where
  -- A get of an object of the ephemeral store: it is here, or it is asked for.
  unfoldable pub get_object : ℕ → ℕ → Str → Scheduler D → Option (Scheduler D)
  unfolding send_to_executer send_data_req
  get_object executor_id req_id key_name s = elim (lookup key_name s.key_len_map) [
    | some size_len ↦ do
      h ← send_to_executer env executor_id (generic_response req_id (to_string size_len)) s.helper
      some (on_helper h s)
    | none ↦ do
      h ← send_data_req key_name s.helper
      some (record s {
        helper = h;
        key_remote_get_map =
            push_request key_name (record { executor_id = executor_id; req_id = req_id })
              s.key_remote_get_map;
      })
  ]

  -- A get from the key-value store, whose key is the second part of the name.
  unfoldable pub get_durable : ℕ → ℕ → Str → Scheduler D → Option (Scheduler D)
  unfolding get_kvs_async
  get_durable executor_id req_id key_name s = do
    key ← get_elem? (split key_name delimiter) 1
    h ← get_kvs_async key s.helper
    some (record s {
      helper = h;
      key_remote_get_map =
          push_request key_name (record { executor_id = executor_id; req_id = req_id })
            s.key_remote_get_map;
    })

  -- The get request: the store, the request's id, the length of the name and the name.
  unfoldable pub get_request : ℕ → Str → Scheduler D → Option (Scheduler D)
  unfolding get_object get_durable
  get_request executor_id (store ∷ req_id ∷ meta_data_len ∷ rest) s =
      let key_name = take meta_data_len rest in
      if ltb (length rest) meta_data_len
      then none
      else if store == 1
      then get_object executor_id req_id key_name s
      else get_durable executor_id req_id key_name s
  get_request executor_id message s = none

  -- 0: empty, 1: available, 2: await, 3: busy
  abbrev pub status_after_available : ℕ → ℕ
  status_after_available st = if st == 0 || st == 2 then 0 else 1

  unfoldable pub busy_flag : ℕ → Scheduler D → Scheduler D
  busy_flag executor_id s = record s {
    executor_status_map = insert executor_id 3 s.executor_status_map;
  }

  unfoldable pub available_flag : ℕ → Scheduler D → Scheduler D
  available_flag executor_id s = record s {
    executor_status_map = update executor_id 0 status_after_available s.executor_status_map;
  }

  unfoldable pub handle_executor : TimePoint → Str → Scheduler D → Option (Scheduler D)
  unfolding get_request send_object busy_flag available_flag
  handle_executor now (address ∷ kind ∷ message) s =
      let executor_id = (address + 255) % 256 in
      if kind == 1
      then get_request executor_id message s
      else if kind == 2 || kind == 3 || kind == 4
      then send_object env now executor_id kind message s
      else if kind == 6
      then some (busy_flag executor_id s)
      else if kind == 7
      then some (available_flag executor_id s)
      else some s
  handle_executor now message s = none

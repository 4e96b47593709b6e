-- ===== src/Scheduler/Data.antt =====
-- pheromone/include/scheduler/comm_helper.hpp: what `CommHelper` does with a function call, a data
-- request, a data response and the responses of the key-value store; and `get_shm_obj` of
-- pheromone/src/scheduler/object_handlers.cpp. A message of the data protocol starts with the
-- length of a key in one byte and the key.
pub mod Exchange
use demeter.Prelude.{
  ltb, if◌then◌else◌, ◌>>=◌, length, take, drop, Map, lookup, insert, ◌==◌, Str, bytes, nat_eq,
  str_eq, ℕ, Bool, Option, none, some, List, [], ◌∷◌, ◌++◌, map,
}
use demeter.Names.{delimiter}
use demeter.Coordinator.{Argument, FunctionRequest, FunctionCall}
use demeter.Scheduler.{
  ReceivedCall, RecvMsg, data_resp, kvs_get_resp, kvs_put_resp, to_data_client, copy, kvs_get,
  CommHelper, emit,
}

-- `KeyResponse` with its first tuple; `timeout` is the error of that name.
pub data RequestType : Type 0 where
  get put unspecified : RequestType

pub record KeyResponse : Type 0 where
  pub type_ : RequestType
  pub timeout : Bool
  pub key : Str
  pub error : ℕ
  pub payload : Str

abbrev pub kvs_key_prefix : Str
kvs_key_prefix = bytes "KVS"

-- The key and what follows it; a shorter message is read past its end.
unfoldable pub parse_data : Str → Option (Str × Str)
parse_data [] = none
parse_data (key_len ∷ message) =
    if ltb (length message) key_len then none else some (take key_len message, drop key_len message)

-- The content of an object, empty if it is not here: the callers test the size alone.
unfoldable pub get_shm_obj : (Str → ℕ → Str) → Map Str ℕ → Str → Str
get_shm_obj shm key_len_map key_name = elim (lookup key_name key_len_map) [
  | none ↦ []
  | some size_of_obj ↦ shm key_name size_of_obj
]

-- The bytes of a data response.
unfoldable pub data_response : ℕ → Str → Str → Str
data_response key_len key content = key_len ∷ key ++ content

-- `emplace`, which keeps an entry that is there.
unfoldable pub emplace : Str → Str → Map Str Str → Map Str Str
emplace key address cache = elim (lookup key cache) [
  | none ↦ insert key address cache
  | some old ↦ cache
]

-- The arguments of a request: their bodies, the flag of the last that has one, and the cache.
unfoldable pub read_arguments : List Argument → ℕ → Map Str Str → List Str × ℕ × Map Str Str
unfolding emplace
read_arguments [] flag cache = ([], flag, cache)
read_arguments (arg ∷ args) flag cache =
    let keyed = ltb 0 arg.arg_flag in
    let (bodies, flag', cache') =
      read_arguments args (if keyed then arg.arg_flag else flag)
        (if keyed then emplace arg.body arg.data_address cache else cache) in
    (arg.body ∷ bodies, flag', cache')

module _ {D : Type 0} where
  unfoldable pub handle_data_request :
      (Str → ℕ → Str) → Map Str ℕ → Str → CommHelper D → Option (CommHelper D)
  unfolding parse_data get_shm_obj data_response
  handle_data_request shm key_len_map message h = do
    (key, resp_address) ← parse_data message
    let content = get_shm_obj shm key_len_map key
    some (
        if ltb 0 (length content)
        then emit (to_data_client resp_address (data_response (length key) key content)) h
        else h)

  unfoldable pub handle_data_response : Str → CommHelper D → Option (RecvMsg D × CommHelper D)
  unfolding parse_data
  handle_data_response message h = do
    (key, content) ← parse_data message
    some (data_resp key (length content), emit (copy key content) h)

  unfoldable pub read_requests :
      List (FunctionRequest D) → Map Str Str → List (List Str) × List ℕ × Map Str Str
  unfolding read_arguments
  read_requests [] cache = ([], [], cache)
  read_requests (req ∷ reqs) cache =
      let (args, flag, cache') = read_arguments req.arguments 0 cache in
      let (argss, flags, cache'') = read_requests reqs cache' in
      (args ∷ argss, flag ∷ flags, cache'')

  unfoldable pub handle_function_call :
      FunctionCall D → CommHelper D → ReceivedCall D × CommHelper D
  unfolding read_requests
  handle_function_call msg h =
      let (argss, flags, cache) = read_requests msg.requests h.key_address_cache in
      (
        record {
          app_name = msg.app_name;
          resp_address = msg.resp_address;
          func_name = map (λ req. req.name) msg.requests;
          func_args = argss;
          is_func_arg_keys = flags;
          cpu_cores = map (λ req. req.cpu_cores) msg.requests;
          memory_mb = map (λ req. req.memory_mb) msg.requests;
          session_id = msg.session_id;
          sync_data_status = msg.sync_data_status;
        },
        record h { key_address_cache = cache },
      )

  -- A response of the store that did not time out.
  unfoldable pub handle_kvs_response :
      (Str → Str) → KeyResponse → CommHelper D → List (RecvMsg D) × CommHelper D
  handle_kvs_response deserialize_lww response h = elim response.type_ [
    | get ↦
        if response.error == 1
        then ([], h)
        else (let value = deserialize_lww response.payload in
            (
              kvs_get_resp response.key (length value) ∷ [],
              emit (copy (kvs_key_prefix ++ delimiter ∷ response.key) value) h,
            ))
    | put ↦ (kvs_put_resp response.key ∷ [], h)
    | unspecified ↦ ([], h)
  ]

  -- A get that timed out is issued again.
  unfoldable pub retry : RequestType → ℕ → Str → CommHelper D → CommHelper D
  retry get tid key h = emit (kvs_get tid key) h
  retry put tid key h = h
  retry unspecified tid key h = h

  unfoldable pub get_kvs_responses :
      (Str → Str) → ℕ → List KeyResponse → CommHelper D → List (RecvMsg D) × CommHelper D
  unfolding handle_kvs_response retry
  get_kvs_responses deserialize_lww tid [] h = ([], h)
  get_kvs_responses deserialize_lww tid (response ∷ responses) h =
      let (resps, h') =
        if response.timeout
        then ([], retry response.type_ tid response.key h)
        else handle_kvs_response deserialize_lww response h in
      let (later, h'') = get_kvs_responses deserialize_lww tid responses h' in (resps ++ later, h'')

-- ===== src/Executor.antt =====
-- pheromone/include/executor/function_lib.hpp: `UserLibrary`, the object that a user's function calls
-- from within an executor, and the objects that it makes. The child module Calls stands for
-- pheromone/src/executor/executor_server.cpp, and Exchange and Sending are about the messages between
-- this object and the scheduler.
pub mod Calls
pub mod Exchange
pub mod Sending
pub mod Tests
use demeter.Prelude.{
  leb, if◌then◌else◌, ◌>>=◌, remove, length, get_elem?, ℤ, or_default, ◌==◌, Str, bytes, nat_eq,
  str_eq, pos, negsuc, ℕ, ◌+◌, ◌-◌, ◌%◌, ◌^◌, Bool, ◌&&◌, Option, none, some, List, [], ◌∷◌, ◌++◌,
}
use demeter.Names.{get_local_object_name, delimiter}
use demeter.Coordinator.{to_string}
use demeter.Coordinator.Apps.{stoi}
use demeter.Scheduler.Data.{kvs_key_prefix}
use demeter.Scheduler.Sends.{bucket_name_direct_invoc, c_string}

-- The fields of `UserLibrary`.
pub record UserLibrary : Type 0 where
  pub ip_number : Str
  pub chan_id : ℕ
  pub rid : ℕ
  pub object_id : ℕ
  pub function : Str
  pub session_id : Str
  pub persist_flag : ℕ
  pub size_of_args : List ℕ

-- An object in shared memory: its name, size and, for a direct invocation, the function.
pub record EpheObject : Type 0 where
  pub obj_name : Str
  pub size : ℕ
  pub target_func : Str

abbrev pub msg_data_packing_threshold : ℕ
msg_data_packing_threshold = 1024

-- The address without its dots.
unfoldable pub new_library : Str → ℕ → UserLibrary
new_library ip thread_id = record {
  ip_number = remove b'.' ip;
  chan_id = (thread_id + 1) % 256;
  rid = 0;
  object_id = 0;
  function = [];
  session_id = [];
  persist_flag = 0;
  size_of_args = [];
}

unfoldable pub clear_session : UserLibrary → UserLibrary
clear_session l = record l { function = []; session_id = []; persist_flag = 0; size_of_args = [] }

unfoldable pub add_arg_size : ℕ → UserLibrary → UserLibrary
add_arg_size size l = record l { size_of_args = l.size_of_args ++ size ∷ [] }

-- -1 as a `size_t` where there is no such argument
unfoldable pub get_size_of_arg : ℕ → UserLibrary → ℕ
get_size_of_arg arg_idx l = or_default (2 ^ 64 - 1) (get_elem? l.size_of_args arg_idx)

-- The counter of requests is one byte.
unfoldable pub next_request_id : UserLibrary → ℕ × UserLibrary
next_request_id l =
    let next = (l.rid + 1) % 256 in
    let rid = if next % 100 == 0 then 0 else next in (rid, record l { rid = rid })

unfoldable pub get_object_id : UserLibrary → ℕ × UserLibrary
get_object_id l = (l.object_id, record l { object_id = (l.object_id + 1) % 0x100000000 })

unfoldable pub gen_unique_key : UserLibrary → Str × UserLibrary
unfolding get_object_id
gen_unique_key l =
    let (id, l') = get_object_id l in
    (l.ip_number ++ b'_' ∷ to_string l.chan_id ++ b'_' ∷ to_string id, l')

-- `create_object(bucket, key, size)`
unfoldable pub create_in_bucket : Str → Str → ℕ → UserLibrary → EpheObject
create_in_bucket bucket key size l = record {
  obj_name = get_local_object_name bucket key l.session_id;
  size = size;
  target_func = [];
}

-- `create_object(size)`
unfoldable pub create_anonymous : ℕ → UserLibrary → EpheObject × UserLibrary
unfolding get_object_id create_in_bucket
create_anonymous size l =
    let (id, l') = get_object_id l in
    (
      create_in_bucket bucket_name_direct_invoc (to_string l.chan_id ++ b'_' ∷ to_string id) size
          l',
      l',
    )

-- `create_object(target_function, many_to_one_trigger, size)`
unfoldable pub create_for_function : Str → Bool → ℕ → UserLibrary → EpheObject × UserLibrary
unfolding gen_unique_key create_in_bucket
create_for_function target_function many_to_one_trigger size l =
    let (key, l') = gen_unique_key l in
    let bucket = bytes "b_" ++ target_function in
    if many_to_one_trigger
    then (
      record {
        obj_name = get_local_object_name bucket (bytes "k_" ++ l.function) l.session_id;
        size = size;
        target_func = target_function;
      },
      l,
    )
    else (create_in_bucket bucket key size l', l')

-- What `send_object` does with an object: 2 is for the ephemeral store, 3 for the key-value store,
-- whose response is awaited, and 4 for the client.
abbrev pub send_kind : Bool → UserLibrary → ℕ
send_kind output l = if output then (if l.persist_flag == 1 then 3 else 4) else 2

-- The message that `send_object` sends, of an object with that content.
unfoldable pub send_object : EpheObject → Str → Bool → UserLibrary → Str × UserLibrary
unfolding next_request_id
send_object obj content output l =
    let (req_id, l') = next_request_id l in
    let packing = leb obj.size msg_data_packing_threshold in
    (
      l.chan_id ∷ send_kind output l ∷ req_id ∷ (if packing then 1 else 2) ∷ l.session_id
          ++ delimiter ∷ l.function
          ++ delimiter ∷ obj.target_func
          ++ delimiter ∷ obj.obj_name
          ++ delimiter ∷ (if packing then content else to_string obj.size),
      l',
    )

-- The name under which `get_object` asks.
abbrev pub wanted_name : Str → Str → Bool → UserLibrary → Str
wanted_name bucket key from_ephe_store l =
    if from_ephe_store
    then get_local_object_name bucket key l.session_id
    else kvs_key_prefix ++ delimiter ∷ key

-- The message that `get_object` sends.
unfoldable pub get_object : Str → Str → Bool → UserLibrary → Str × UserLibrary
unfolding next_request_id
get_object bucket key from_ephe_store l =
    let (req_id, l') = next_request_id l in
    let obj_name = wanted_name bucket key from_ephe_store l in
    (
      l.chan_id
          ∷ 1
          ∷ (if from_ephe_store then 1 else 2)
          ∷ req_id
          ∷ length obj_name % 256
          ∷ obj_name,
      l',
    )

abbrev as_size : ℤ → ℕ
as_size (pos n) = n
as_size (negsuc n) = 2 ^ 64 - n - 1

-- What `get_object` makes of the response, `none` inside for the null pointer. No response is a
-- timeout; one of fewer than three bytes is read past its end.
unfoldable pub object_of_response : Str → ℕ → Option Str → Option (Option EpheObject)
unfolding c_string
object_of_response obj_name req_id none = some none
object_of_response obj_name req_id (some (kind ∷ id ∷ success ∷ value)) =
    if kind == 3 && id == req_id && success == 1
    then (do
      size_len ← stoi (c_string value)
      some (some (record { obj_name = obj_name; size = as_size size_len; target_func = [] })))
    else some none
object_of_response obj_name req_id (some response) = none

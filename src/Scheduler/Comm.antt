-- ===== src/Scheduler/Comm.antt =====
-- pheromone/include/scheduler/comm_helper.hpp: `CommHelper` sends requests to other workers, to the
-- coordinator, to the key-value store and to clients. The addresses are those of
-- pheromone/common/include/kvs_threads.hpp.
pub mod Threads
pub mod RequestIds
use demeter.Coordinator.{tcp_address, to_string}
use demeter.Scheduler.{
  HandlerThread, SecondaryThreadMsg, send_req, get_kvs, put_kvs, to_data_server, kvs_get, kvs_put,
  CommHelper, emit,
}
use demeter.Prelude.{
  ltb, leb, if◌then◌else◌, ◌>>=◌, length, or_default, lookup, ◌==◌, Str, bytes, nat_eq, str_eq, ℕ,
  zero, suc, ◌+◌, ◌-◌, ◌*◌, ◌%◌, ◌^◌, Bool, true, Option, none, some, List, [], ◌∷◌, ◌++◌,
}

abbrev pub u32 : ℕ
u32 = 0x100000000

abbrev pub data_access_server_port : ℕ
data_access_server_port = 4400

abbrev pub data_access_client_port : ℕ
data_access_client_port = 4450

abbrev notify_handler_port : ℕ
notify_handler_port = 7350

-- The `..._connect_address` of a `HandlerThread`, of the port of its first thread.
unfoldable pub connect_address : HandlerThread → ℕ → Str
connect_address ht port = tcp_address ht.ip ((ht.tid + port) % u32)

-- The number in the request id, which counts up before and after it is read.
unfoldable pub next_rid : ℕ → ℕ × ℕ
next_rid rid =
    let next = (rid + 1) % u32 in
    let id = if next % 10000 == 0 then 0 else next in (id, (id + 1) % u32)

-- The bytes of a data request: the length of the key in one byte, the key, and the address of
-- the thread that waits for the data.
unfoldable pub data_request : Str → Str → Str
data_request key resp_address = length key % 256 ∷ key ++ resp_address

-- `while (id >= pow) pow *= 10`, for the thread ids that fit the fuel's decimal digits
unfoldable pub power_above : ℕ → ℕ → ℕ → ℕ
power_above zero pow id = pow
power_above (suc fuel) pow id =
    let rest = power_above fuel (pow * 10) id in if leb pow id then rest else pow

-- `time` is in milliseconds; the id has at most nine digits.
unfoldable pub generate_timestamp : ℕ → ℕ → ℕ
unfolding power_above
generate_timestamp time id = (time * power_above 8 10 id + id) % 2 ^ 64

-- `secondary_thread_msg_queues[index]->push(msg)`
unfoldable pub push_at :
    SecondaryThreadMsg
    → ℕ
    → List (List SecondaryThreadMsg)
    → Option (List (List SecondaryThreadMsg))
push_at msg index [] = none
push_at msg zero (queue ∷ queues) = some ((queue ++ msg ∷ []) ∷ queues)
push_at msg (suc index) (queue ∷ queues) = do
  queues' ← push_at msg index queues
  some (queue ∷ queues')

module _ {D : Type 0} where
  unfoldable pub get_io_thread_id : Bool → CommHelper D → ℕ × CommHelper D
  get_io_thread_id exclude_main_thread h =
      let next = (h.io_thread_id + 1) % u32 in
      let id =
        if next % h.io_thread_count == 0 then (if exclude_main_thread then 1 else 0) else next in
      (id, record h { io_thread_id = id })

  unfoldable pub get_data_server_addr : Bool → CommHelper D → Str × CommHelper D
  unfolding get_io_thread_id
  get_data_server_addr exclude_main_thread h =
      let (thread_id, h') = get_io_thread_id exclude_main_thread h in
      (tcp_address h.ip ((thread_id + data_access_server_port) % u32), h')

  -- The thread of `ut_` is 0.
  unfoldable pub get_request_id : CommHelper D → Str × CommHelper D
  unfolding next_rid
  get_request_id h =
      let (id, rid) = next_rid h.rid in
      (h.ip ++ bytes ":0_" ++ to_string id, record h { rid = rid })

  unfoldable pub get_key_address : Str → CommHelper D → Str
  get_key_address key h = or_default [] (lookup key h.key_address_cache)

  unfoldable pub get_notifying_thread : Str → CommHelper D → Str
  unfolding connect_address
  get_notifying_thread bucket h = elim (lookup bucket h.bucket_coord_map) [
    | none ↦ []
    | some ht ↦ connect_address ht notify_handler_port
  ]

  unfoldable pub send_data_req_base : Str → ℕ → CommHelper D → CommHelper D
  unfolding get_key_address data_request
  send_data_req_base key tid h =
      let data_address = get_key_address key h in
      if data_address == []
      then h
      else emit
          (to_data_server data_address
            (data_request key (tcp_address h.ip ((tid + data_access_client_port) % u32))))
          h

  unfoldable pub get_kvs_async_base : Str → ℕ → CommHelper D → CommHelper D
  get_kvs_async_base key tid h = emit (kvs_get tid key) h

  unfoldable pub put_kvs_async_base :
      (ℕ → Str → Str) → ℕ → Str → Str → ℕ → CommHelper D → CommHelper D
  unfolding generate_timestamp
  put_kvs_async_base serialize_lww time key val tid h =
      emit (kvs_put tid key (serialize_lww (generate_timestamp time tid) val)) h

  -- `send_data_req`, `get_kvs_async` and `put_kvs_async`: the main thread serves the request
  -- itself, or hands it to the next of the other I/O threads.
  unfoldable pub to_io_thread :
      SecondaryThreadMsg → (CommHelper D → CommHelper D) → CommHelper D → Option (CommHelper D)
  unfolding get_io_thread_id push_at
  to_io_thread msg serve h =
      if ltb 1 h.io_thread_count
      then (let (thread_id, h') = get_io_thread_id true h in
          if thread_id == 0 then some (serve h') else do
            queues ← push_at msg (thread_id - 1) h.secondary_thread_msg_queues
            some (record h' { secondary_thread_msg_queues = queues }))
      else some (serve h)

  unfoldable pub send_data_req : Str → CommHelper D → Option (CommHelper D)
  unfolding to_io_thread send_data_req_base
  send_data_req key h = to_io_thread (send_req key) (send_data_req_base key 0) h

  unfoldable pub get_kvs_async : Str → CommHelper D → Option (CommHelper D)
  unfolding to_io_thread get_kvs_async_base
  get_kvs_async key h = to_io_thread (get_kvs key) (get_kvs_async_base key 0) h

  unfoldable pub put_kvs_async :
      (ℕ → Str → Str) → ℕ → Str → Str → CommHelper D → Option (CommHelper D)
  unfolding to_io_thread put_kvs_async_base
  put_kvs_async serialize_lww time key val h =
      to_io_thread (put_kvs key val) (put_kvs_async_base serialize_lww time key val 0) h

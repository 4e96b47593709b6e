-- ===== src/Scheduler/IoThreads.antt =====
-- pheromone/include/scheduler/comm_helper.hpp, `run_io_thread_loop`: a round of one of the other I/O
-- threads, whose sockets are its own. What it delivers goes to its queue of responses.
use demeter.Prelude.{
  ◌>>=◌, get_elem?, Str, nat_eq, str_eq, ℕ, zero, suc, ◌-◌, ◌/◌, Option, some, List, [], ◌∷◌, ◌++◌,
}
use demeter.Coordinator.{FunctionCall}
use demeter.Trigger.ByTime.{TimePoint}
use demeter.Scheduler.{
  SecondaryThreadMsg, send_req, get_kvs, put_kvs, RecvMsg, CommHelper, Scheduler, Env, on_helper,
}
use demeter.Scheduler.Comm.{send_data_req_base, get_kvs_async_base, put_kvs_async_base}
use demeter.Scheduler.Data.{KeyResponse, get_kvs_responses}
use demeter.Scheduler.Run.{recv_call, recv_data_request, recv_data_response}

abbrev pub msg_process_batch : ℕ
msg_process_batch = 10

-- What the sockets of a thread hold in a round.
pub record IoPoll (D : Type 0) : Type 0 where
  pub func_exec : Option (FunctionCall D)
  pub data_access_server : Option Str
  pub data_access_client : Option Str
  pub kvs_responses : List KeyResponse

module _ {B D : Type 0} (env : Env B D) where
  unfoldable pub serve_msg : ℕ → ℕ → SecondaryThreadMsg → CommHelper D → CommHelper D
  unfolding send_data_req_base get_kvs_async_base put_kvs_async_base
  serve_msg time tid (send_req key) h = send_data_req_base key tid h
  serve_msg time tid (get_kvs key) h = get_kvs_async_base key tid h
  serve_msg time tid (put_kvs key val) h = put_kvs_async_base env.serialize_lww time key val tid h

  -- As many messages of the queue as a batch has, and the rest.
  unfoldable pub serve_batch :
      ℕ → ℕ → ℕ → List SecondaryThreadMsg → CommHelper D → List SecondaryThreadMsg × CommHelper D
  unfolding serve_msg
  serve_batch zero time tid queue h = (queue, h)
  serve_batch (suc n) time tid [] h = ([], h)
  serve_batch (suc n) time tid (msg ∷ queue) h =
      serve_batch n time tid queue (serve_msg time tid msg h)

  -- The queue of a thread, replaced.
  unfoldable pub set_queue :
      ℕ → List SecondaryThreadMsg → List (List SecondaryThreadMsg) → List (List SecondaryThreadMsg)
  set_queue i queue [] = []
  set_queue zero queue (q ∷ queues) = queue ∷ queues
  set_queue (suc i) queue (q ∷ queues) = q ∷ set_queue i queue queues

  unfoldable pub io_round :
      TimePoint → ℕ → IoPoll D → Scheduler D → Option (List (RecvMsg D) × Scheduler D)
  unfolding recv_call recv_data_request recv_data_response serve_batch set_queue get_kvs_responses
  io_round now tid poll s = do
    let (calls, h1) = recv_call env poll.func_exec s.helper
    h2 ← recv_data_request env poll.data_access_server (on_helper h1 s)
    (objects, h3) ← recv_data_response env poll.data_access_client h2
    queue ← get_elem? h3.secondary_thread_msg_queues (tid - 1)
    let (rest, h4) = serve_batch msg_process_batch (now / 1000000) tid queue h3
    let h5 = record h4 {
      secondary_thread_msg_queues = set_queue (tid - 1) rest h4.secondary_thread_msg_queues;
    }
    let (kvs, h6) = get_kvs_responses env.deserialize_lww tid poll.kvs_responses h5
    some (calls ++ objects ++ kvs, on_helper h6 s)

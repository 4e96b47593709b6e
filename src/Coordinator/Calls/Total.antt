-- ===== src/Coordinator/Calls/Total.antt =====
-- pheromone/src/coordinator/func_call_handler.cpp: what becomes of every call.
use demeter.Prelude.{
  Bool-cases, length, is_nil, count, Map, ◌==◌, Str, nat_eq, str_eq, ℕ, ◌%◌, ◌<◌, ◌≡◌, refl, ap,
  subst, ◌∙◌, ◌⊎◌, inl, inr, Bool, true, false, some, List, [], ◌∷◌, ◌++◌, arith,
}
use demeter.Names.{gen_random}
use demeter.Coordinator.{
  get_func_exec_address, Argument, Coordinator, FunctionRequest, FunctionCall, Outgoing,
  function_call,
}
use demeter.Coordinator.Demeter.{Double, DemeterSchedulerConfig}
use demeter.Coordinator.Demeter.Placement.{Named}
use demeter.Coordinator.Calls.{with_session, send_calls, dispatch, refusal, func_call_handler}
use demeter.Coordinator.Calls.Scheduled.{by_name, can_take, Scheduled, schedule-Scheduled}
use demeter.Coordinator.Calls.Cuts.{requests_of}

-- The requests in the calls that are sent.
abbrev pub sent_requests : {B D : Type 0} → List (Outgoing B D) → List (FunctionRequest D)
sent_requests [] = []
sent_requests (function_call address msg ∷ sent) = msg.requests ++ sent_requests sent
sent_requests (other ∷ sent) = sent_requests sent

-- What becomes of a call: if it can be taken, its requests are sent, each once and with its function
-- and arguments; otherwise the client is told, if it has an address.
abbrev pub Answered : {B D : Type 0} → Bool → FunctionCall D → List (Outgoing B D) → Type 0
Answered able msg sent =
    ((able ≡ true)
      × ((p : Str → List Argument → Bool)
          → count (by_name p) (sent_requests sent) ≡ count (by_name p) msg.requests))
    ⊎ ((able ≡ false) × (sent ≡ refusal msg))

-- A call that is given a session id is otherwise the same.
with_session-same :
    {D : Type 0} (rand_r : ℕ → ℕ × ℕ) (seed : ℕ) (msg : FunctionCall D)
    → (session : Str) × ((with_session rand_r seed msg).0 ≡ record msg { session_id = session })
unfolding with_session
with_session-same rand_r seed msg = elim (Bool-cases (msg.session_id == [])) [
  | inl fresh ↦ ((gen_random rand_r seed 16).0, rw (with_session, fresh) refl)
  | inr given ↦ (msg.session_id, rw (with_session, given) refl)
]

module _ {B D : Type 0} (rand_r : ℕ → ℕ × ℕ) where
  -- Where there are I/O threads, the calls are sent with all their requests.
  send_calls-all :
      (io_thread_num seed : ℕ) (calls : Map Str (FunctionCall D))
      → 0 < io_thread_num
      → (sent : List (Outgoing B D)) × (last : ℕ) × (send_calls rand_r io_thread_num seed calls
          ≡ some (sent, last))
        × (sent_requests sent ≡ requests_of calls)
  unfolding send_calls
  send_calls-all io_thread_num seed [] h = ([], seed, refl, refl)
  send_calls-all io_thread_num seed ((node, msg) ∷ calls) h =
      let (sent, last, ends, whole) = send_calls-all io_thread_num (rand_r seed).1 calls h in
      let threads : (io_thread_num == 0) ≡ false = ground (arith, h) in
      (
        function_call (get_func_exec_address node ((rand_r seed).0 % io_thread_num)) msg ∷ sent,
        last,
        rw (threads, ends) refl,
        ap (λ r. msg.requests ++ r) whole,
      )

  dispatch-Answered :
      (io_thread_num seed : ℕ) (c : Coordinator) (msg : FunctionCall D) (able : Bool)
      (calls : Map Str (FunctionCall D))
      → 0 < io_thread_num
      → Scheduled able msg calls
      → (c' : Coordinator) × (sent : List (Outgoing B D)) × (last : ℕ) × (dispatch rand_r
            io_thread_num seed c msg calls
          ≡ some (c', sent, last))
        × Answered able msg sent
  unfolding dispatch
  dispatch-Answered io_thread_num seed c msg able [] h (inl (taken, full, all)) =
      absurd (ground (arith, full))
  dispatch-Answered io_thread_num seed c msg able [] h (inr (refused, e)) =
      (c, refusal msg, seed, refl, inr (refused, refl))
  dispatch-Answered io_thread_num seed c msg able (call ∷ calls) h (inr (refused, e)) =
      absurd (ground (arith, ap is_nil e))
  dispatch-Answered io_thread_num seed c msg able (call ∷ calls) h (inl (taken, full, all)) =
      let (sent, last, ends, whole) = send_calls-all io_thread_num seed (call ∷ calls) h in
      (
        c,
        sent,
        last,
        rw (dispatch, ends) refl,
        inl (taken, λ p. ap (count (by_name p)) whole ∙ all p),
      )

  with_session-Answered :
      (seed : ℕ) (able : Str → ℕ → Bool) (msg : FunctionCall D) (sent : List (Outgoing B D))
      → Answered
          (able
            (with_session rand_r seed msg).0.source
            (length (with_session rand_r seed msg).0.requests))
          (with_session rand_r seed msg).0
          sent
      → Answered (able msg.source (length msg.requests)) msg sent
  with_session-Answered seed able msg sent h =
      subst (λ (m : FunctionCall D). Answered (able m.source (length m.requests)) m sent)
        (with_session-same rand_r seed msg).1 h

  module _ (d : Double D) (config : DemeterSchedulerConfig D) where
    -- Every call is handled. If there is a node, and Demeter is enabled, the call has at most one
    -- request, or the nodes other than the source have executors for its requests, then every request
    -- is sent exactly once, in whatever order, with its function and arguments; otherwise the client is
    -- told that it is refused, if it has an address. There is an I/O thread, and all nodes have an
    -- address.
    pub func_call_handler-all :
        (io_thread_num seed : ℕ) (c : Coordinator) (msg : FunctionCall D)
        → 0 < io_thread_num
        → Named c.node_status_map
        → (c' : Coordinator) × (sent : List (Outgoing B D)) × (last : ℕ) × (func_call_handler rand_r
              d config io_thread_num seed c msg
            ≡ some (c', sent, last))
          × Answered
              (can_take config.enabled msg.source c.node_status_map (length msg.requests))
              msg
              sent
    unfolding func_call_handler
    func_call_handler-all io_thread_num seed c msg threads named =
        let call_msg = (with_session rand_r seed msg).0 in
        let (calls, nodes, seed', ends, scheduled) =
          schedule-Scheduled rand_r d config (with_session rand_r seed msg).1 call_msg
            c.node_status_map named in
        let (c', sent, last, done, answered) =
          dispatch-Answered io_thread_num seed' (record c { node_status_map = nodes }) call_msg _
            calls threads scheduled in
        (
          c',
          sent,
          last,
          rw (ends) done,
          with_session-Answered seed
              (λ source n. can_take config.enabled source c.node_status_map n) msg sent answered,
        )

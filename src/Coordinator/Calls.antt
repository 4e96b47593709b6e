-- ===== src/Coordinator/Calls.antt =====
-- pheromone/src/coordinator/func_call_handler.cpp: a call's requests are sent to nodes.
pub mod Rounds
pub mod Scheduled
pub mod Total
pub mod Leading
pub mod Cuts
pub mod Batch
pub mod Scans
use demeter.Prelude.{
  ltb, leb, nat_eqb, if◌then◌else◌, ◌>>=◌, length, get_elem?, ℤ, pos_part, Map, ◌==◌, Str, nat_eq,
  str_eq, ℕ, zero, suc, ◌+◌, ◌-◌, ◌%◌, true, Option, none, some, List, [], ◌∷◌, ◌++◌, map,
}
use demeter.Names.{gen_random}
use demeter.Coordinator.{
  FunctionRequest, FunctionCall, FunctionCallResponse, NodeStatus, Coordinator, Outgoing,
  function_call, function_response, get_func_exec_address,
}
use demeter.Coordinator.Demeter.{
  Double, DemeterSchedulerConfig, is_source, key_at, demeter_schedule_function_call,
}

-- What the loop over the nodes finds: the available nodes with their executors, the sum of these,
-- and the node with most. The largest number is 0 while no node is available.
pub record Nodes : Type 0 where
  pub total_executors : ℕ
  pub avail_nodes : List (Str × ℕ)
  pub max_executors : ℕ
  pub node_with_max_executors : Str

abbrev see_node : Str → ℤ → Nodes → Nodes
see_node ip avail n = record {
  total_executors = n.total_executors + pos_part avail;
  avail_nodes =
      if ltb 0 (pos_part avail) then n.avail_nodes ++ (ip, pos_part avail) ∷ [] else n.avail_nodes;
  max_executors = if ltb n.max_executors (pos_part avail) then pos_part avail else n.max_executors;
  node_with_max_executors =
      if ltb n.max_executors (pos_part avail) then ip else n.node_with_max_executors;
}

unfoldable pub scan_nodes : Str → Nodes → Map Str NodeStatus → Nodes
unfolding is_source
scan_nodes source n [] = n
scan_nodes source n ((ip, status) ∷ nodes) =
    scan_nodes source (if is_source source ip then n else see_node ip status.avail_executors n)
      nodes

abbrev pub no_nodes : Nodes
no_nodes = record {
  total_executors = 0;
  avail_nodes = [];
  max_executors = 0;
  node_with_max_executors = [];
}

-- `while (avail_nodes[node_idx].second <= 0)`; `none` means that the fuel ran out.
unfoldable pub next_free : ℕ → List ℕ → ℕ → Option ℕ
next_free zero avail node_idx = none
next_free (suc fuel) avail node_idx =
    let rest = next_free fuel avail ((node_idx + 1) % length avail) in
    elim (get_elem? avail node_idx) [
      | none ↦ none
      | some n ↦ if leb n 0 then rest else some node_idx
    ]

-- A vector with one element changed.
unfoldable pub modify : (ℕ → ℕ) → List ℕ → ℕ → List ℕ
modify f [] i = []
modify f (x ∷ xs) zero = f x ∷ xs
modify f (x ∷ xs) (suc i) = x ∷ modify f xs i

-- The `for` loop that gives the requests to the nodes in turn, a request a round.
unfoldable pub deal : ℕ → List ℕ → List ℕ → ℕ → Option (List ℕ)
unfolding next_free modify
deal zero avail node_loads node_idx = some node_loads
deal (suc req_num) avail node_loads node_idx = elim (next_free (length avail) avail node_idx) [
  | none ↦ none
  | some i ↦
      deal req_num (modify (λ n. n - 1) avail i) (modify (λ n. n + 1) node_loads i)
        ((i + 1) % length avail)
]

module _ {D : Type 0} where
  -- The loop that cuts the requests into one call for each node. `cur` holds the requests that
  -- `routed_call` has so far; `none` is an index past the end of `node_loads`.
  unfoldable pub cut_requests :
      FunctionCall D
      → List (FunctionRequest D)
      → List ℕ
      → List Str
      → List (FunctionRequest D)
      → Option (Map Str (FunctionCall D))
  cut_requests routed cur loads nodes [] = some []
  cut_requests routed cur [] nodes (req ∷ reqs) = none
  cut_requests routed cur (load ∷ loads) [] (req ∷ reqs) = none
  cut_requests routed cur (load ∷ loads) (node ∷ nodes) (req ∷ reqs) =
      let cur' = cur ++ req ∷ [] in
      let full = cut_requests routed [] loads nodes reqs in
      let more = cut_requests routed cur' (load ∷ loads) (node ∷ nodes) reqs in
      if nat_eqb (length cur') load
      then elim full [
        | none ↦ none
        | some calls ↦ some ((node, record routed { requests = cur' }) ∷ calls)
      ]
      else more

  -- The call that the parts are made of.
  abbrev pub routed_call : FunctionCall D → FunctionCall D
  routed_call call_msg = record {
    app_name = call_msg.app_name;
    requests = [];
    source = [];
    request_id = [];
    resp_address = call_msg.resp_address;
    session_id = [];
    sync_data_status = true;
  }

  -- The branch of the batch in which no node is large enough but all together are.
  unfoldable pub split_batch : FunctionCall D → Nodes → Option (Map Str (FunctionCall D))
  unfolding deal cut_requests
  split_batch call_msg n =
      elim (deal (length call_msg.requests) (map (λ e. e.1) n.avail_nodes)
        (map (λ e. 0) n.avail_nodes) 0) [
          | none ↦ none
          | some loads ↦
              cut_requests (routed_call call_msg) [] loads (map (λ e. e.0) n.avail_nodes)
                call_msg.requests
        ]

  -- "batch scheduling"
  unfoldable pub schedule_batch :
      FunctionCall D → Map Str NodeStatus → Option (Map Str (FunctionCall D))
  unfolding scan_nodes split_batch
  schedule_batch call_msg nodes =
      let n = scan_nodes call_msg.source no_nodes nodes in
      if leb (length call_msg.requests) n.max_executors
      then some ((n.node_with_max_executors, call_msg) ∷ [])
      else if leb (length call_msg.requests) n.total_executors
      then split_batch call_msg n
      else some []

  abbrev pub refusal : {B : Type 0} → FunctionCall D → List (Outgoing B D)
  refusal call_msg =
      if call_msg.resp_address == []
      then []
      else function_response call_msg.resp_address
          (record { app_name = call_msg.app_name; request_id = call_msg.request_id; error_no = 1 })
        ∷ []

  module _ (rand_r : ℕ → ℕ × ℕ) where
    -- The branch for a single request: the node with most executors or, if all are in use, a
    -- random one.
    unfoldable pub schedule_single :
        ℕ → FunctionCall D → Map Str NodeStatus → Map Str (FunctionCall D) × ℕ
    unfolding scan_nodes
    schedule_single seed call_msg nodes =
        let n = scan_nodes call_msg.source no_nodes nodes in
        if ltb 0 n.max_executors
        then ((n.node_with_max_executors, call_msg) ∷ [], seed)
        else elim nodes [
          | [] ↦ ([], seed)
          | n ∷ ns ↦ (
            (key_at ((rand_r seed).0 % length (n ∷ ns)) (n ∷ ns), call_msg) ∷ [],
            (rand_r seed).1,
          )
        ]

    -- A call without a session is given a random id of 16 bytes.
    unfoldable pub with_session : ℕ → FunctionCall D → FunctionCall D × ℕ
    with_session seed call_msg =
        if call_msg.session_id == []
        then (let (session_id, seed') = gen_random rand_r seed 16 in
            (record call_msg { session_id = session_id }, seed'))
        else (call_msg, seed)

    -- What remains when Demeter has scheduled nothing.
    unfoldable pub schedule_default :
        ℕ → FunctionCall D → Map Str NodeStatus → Option (Map Str (FunctionCall D) × ℕ)
    unfolding schedule_batch schedule_single
    schedule_default seed call_msg nodes =
        if ltb 1 (length call_msg.requests)
        then elim (schedule_batch call_msg nodes) [
          | none ↦ none
          | some scheduled ↦ some (scheduled, seed)
        ]
        else some (schedule_single seed call_msg nodes)

    -- The scheduled calls, the nodes after Demeter has counted executors down, and the seed.
    unfoldable pub schedule :
        Double D
        → DemeterSchedulerConfig D
        → ℕ
        → FunctionCall D
        → Map Str NodeStatus
        → Option (Map Str (FunctionCall D) × Map Str NodeStatus × ℕ)
    unfolding schedule_default
    schedule d config seed call_msg nodes =
        let (routed, nodes', seed') =
          demeter_schedule_function_call d rand_r config call_msg.source seed nodes call_msg in
        elim routed [
          | [] ↦ elim (schedule_default seed' call_msg nodes') [
            | none ↦ none
            | some (scheduled, seed'') ↦ some (scheduled, nodes', seed'')
          ]
          | r ∷ rs ↦ some (r ∷ rs, nodes', seed')
        ]

    -- The loop that sends the calls, each to a random I/O thread of its node, in the order of an
    -- unordered map, which the theorems therefore do not rest on. Without I/O threads the remainder
    -- is a division by zero.
    unfoldable pub send_calls :
        {B : Type 0} → ℕ → ℕ → Map Str (FunctionCall D) → Option (List (Outgoing B D) × ℕ)
    send_calls io_thread_num seed [] = some ([], seed)
    send_calls io_thread_num seed ((node, msg) ∷ rest) =
        let (r, seed') = rand_r seed in
        let later = send_calls io_thread_num seed' rest in
        if io_thread_num == 0 then none else do
          (sent, last) ← later
          some (function_call (get_func_exec_address node (r % io_thread_num)) msg ∷ sent, last)

    -- Nothing scheduled is a refusal; anything else is sent.
    unfoldable pub dispatch :
        {B : Type 0}
        → ℕ
        → ℕ
        → Coordinator
        → FunctionCall D
        → Map Str (FunctionCall D)
        → Option (Coordinator × List (Outgoing B D) × ℕ)
    unfolding send_calls
    dispatch io_thread_num seed c call_msg [] = some (c, refusal call_msg, seed)
    dispatch io_thread_num seed c call_msg (s ∷ ss) = do
      (sent, last) ← send_calls io_thread_num seed (s ∷ ss)
      some (c, sent, last)

    unfoldable pub func_call_handler :
        {B : Type 0}
        → Double D
        → DemeterSchedulerConfig D
        → ℕ
        → ℕ
        → Coordinator
        → FunctionCall D
        → Option (Coordinator × List (Outgoing B D) × ℕ)
    unfolding with_session schedule dispatch
    func_call_handler d config io_thread_num seed c msg =
        let (call_msg, seed') = with_session seed msg in
        do
          (scheduled, nodes, seed'') ← schedule d config seed' call_msg c.node_status_map
          let c' = record c { node_status_map = nodes }
          dispatch io_thread_num seed'' c' call_msg scheduled

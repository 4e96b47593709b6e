-- ===== src/Coordinator/Demeter.antt =====
-- pheromone/src/coordinator/demeter_scheduler.cpp and its header: the allocation that a request is
-- given and the node that it is sent to. `double` is a parameter: a type with the operations that
-- this file uses.
pub mod Config
pub mod Allocation
pub mod Placement
use demeter.Prelude.{
  ltb, nat_eqb, if◌then◌else◌, contains, add, length, get_elem?, ℤ, ltb_ℤ, pred_ℤ, Map, or_default,
  lookup, update, ◌==◌, Str, bytes, nat_eq, str_eq, pos, ℕ, ◌%◌, Bool, true, not, ◌&&◌, ◌||◌,
  Option, none, some, List, [], ◌∷◌, ◌++◌, map,
}
use demeter.Coordinator.{Argument, FunctionRequest, FunctionCall, NodeStatus}

pub record Double (D : Type 0) : Type 0 where
  pub add : D → D → D
  pub mul : D → D → D
  pub div : D → D → D
  pub less : D → D → Bool
  pub less_eq : D → D → Bool
  pub of_ℕ : ℕ → D
  pub of_int : ℤ → D
  -- The literal with these digits behind the point: `literal 15 2` is 0.15.
  pub literal : ℕ → ℕ → D
  pub minus_infinity : D

pub record DemeterAllocation (D : Type 0) : Type 0 where
  pub name : Str
  pub cpu_cores : D
  pub memory_mb : ℕ

pub record DemeterNodeProfile (D : Type 0) : Type 0 where
  pub dc : Str
  pub warm_weight : D
  pub load_weight : D
  pub locality_weight : D

pub record DemeterSchedulerConfig (D : Type 0) : Type 0 where
  pub enabled : Bool
  pub memory_loss_factor : D
  pub allocations : List (DemeterAllocation D)
  pub node_profiles : Map Str (DemeterNodeProfile D)

-- `!source.empty() && source == ip`
unfoldable pub is_source : Str → Str → Bool
is_source source ip = not (source == []) && source == ip

-- The key at an index of the map.
abbrev pub key_at : ℕ → Map Str NodeStatus → Str
key_at i nodes = elim (get_elem? nodes i) [ none ↦ [] | some e ↦ e.0 ]

-- One executor less, if there is one; `node_status_map[ip]` of a node that is there.
abbrev pub take_executor : NodeStatus → NodeStatus
take_executor s =
    if ltb_ℤ (pos 0) s.avail_executors
    then record s { avail_executors = pred_ℤ s.avail_executors }
    else s

abbrev pub new_status : NodeStatus
new_status = record { tp = 0; avail_executors = pos 0; functions = [] }

module _ {D : Type 0} (d : Double D) where
  unfoldable pub clamp_positive : D → D → D
  clamp_positive value fallback = if d.less (d.of_ℕ 0) value then value else fallback

  unfoldable pub total_bytes : D → List Argument → D
  total_bytes total [] = total
  total_bytes total (arg ∷ args) =
      total_bytes (if arg.body == [] then total else d.add total (d.of_ℕ (length arg.body))) args

  -- `std::max(a, b)` is `a < b ? b : a`.
  unfoldable pub estimate_request_input_mb : FunctionRequest D → D
  unfolding total_bytes
  estimate_request_input_mb req =
      let mb = d.div (total_bytes (d.of_ℕ 0) req.arguments) (d.mul (d.of_ℕ 1024) (d.of_ℕ 1024)) in
      if d.less mb (d.of_ℕ 1) then d.of_ℕ 1 else mb

  -- The test for replacing `best` by an allocation that is large enough.
  unfoldable pub is_better : DemeterAllocation D → DemeterAllocation D → Bool
  is_better alloc best =
      ltb alloc.memory_mb best.memory_mb
      || (nat_eqb alloc.memory_mb best.memory_mb && d.less alloc.cpu_cores best.cpu_cores)

  unfoldable pub is_enough : D → DemeterAllocation D → Bool
  is_enough required_mb alloc = d.less_eq required_mb (d.of_ℕ alloc.memory_mb)

  -- The loop over the allocations; `none` is `!found`.
  unfoldable pub best_allocation :
      D → Option (DemeterAllocation D) → List (DemeterAllocation D) → Option (DemeterAllocation D)
  unfolding is_better is_enough
  best_allocation required_mb best [] = best
  best_allocation required_mb best (alloc ∷ allocs) =
      best_allocation required_mb
        (if is_enough required_mb alloc
          then elim best [
            | none ↦ some alloc
            | some b ↦ if is_better alloc b then some alloc else some b
          ]
          else best)
        allocs

  -- `allocations.back()` of a list that is not empty.
  abbrev pub back : DemeterAllocation D → List (DemeterAllocation D) → DemeterAllocation D
  back a [] = a
  back a (b ∷ bs) = back b bs

  unfoldable pub required_mb : FunctionRequest D → DemeterSchedulerConfig D → D
  unfolding estimate_request_input_mb clamp_positive
  required_mb req config =
      d.div (estimate_request_input_mb req)
        (clamp_positive config.memory_loss_factor (d.literal 8 1))

  unfoldable pub choose_allocation :
      FunctionRequest D → DemeterSchedulerConfig D → DemeterAllocation D
  unfolding best_allocation required_mb
  choose_allocation req config = elim config.allocations [
    | [] ↦ record { name = bytes "default"; cpu_cores = d.of_ℕ 1; memory_mb = 128 }
    | a ∷ allocs ↦
        or_default (back a allocs) (best_allocation (required_mb req config) none (a ∷ allocs))
  ]

  abbrev pub default_profile : Str → DemeterNodeProfile D
  default_profile addr = record {
    dc = addr;
    warm_weight = d.literal 15 2;
    load_weight = d.literal 35 2;
    locality_weight = d.of_ℕ 1;
  }

  unfoldable pub node_affinity :
      Str → NodeStatus → FunctionRequest D → DemeterAllocation D → DemeterSchedulerConfig D → D
  node_affinity addr status req alloc config =
      let profile = or_default (default_profile addr) (lookup addr config.node_profiles) in
      let warm_bonus =
        if contains status.functions req.name then profile.warm_weight else d.of_ℕ 0 in
      let load_score = d.mul profile.load_weight (d.of_int status.avail_executors) in
      let resource_score =
        d.add (d.mul (d.literal 1 2) alloc.cpu_cores)
          (d.mul (d.literal 1 5) (d.of_ℕ alloc.memory_mb)) in
      d.add (d.add (d.add load_score warm_bonus) resource_score) profile.locality_weight

  -- The loop over the nodes, with `best_score` and `best_node`.
  unfoldable pub best_node : Str → (Str → NodeStatus → D) → D → Str → Map Str NodeStatus → Str
  best_node source score best_score best [] = best
  best_node source score best_score best ((ip, status) ∷ nodes) =
      let s = score ip status in
      let better =
        not (is_source source ip)
        && (ltb_ℤ (pos 0) status.avail_executors && d.less best_score s) in
      best_node source score (if better then s else best_score) (if better then ip else best) nodes

  module _ (rand_r : ℕ → ℕ × ℕ) (config : DemeterSchedulerConfig D) (source : Str) where
    -- The node for a request: the best by affinity or, failing that, a random one.
    unfoldable pub pick_node : ℕ → Map Str NodeStatus → FunctionRequest D → Str × ℕ
    unfolding best_node
    pick_node seed nodes req =
        let alloc = choose_allocation req config in
        let best =
          best_node source (λ ip status. node_affinity ip status req alloc config) d.minus_infinity
            [] nodes in
        if best == []
        then (key_at ((rand_r seed).0 % length nodes) nodes, (rand_r seed).1)
        else (best, seed)

    -- The loop over the requests: the requests of each node, the nodes and the seed.
    unfoldable pub place_requests :
        ℕ
        → Map Str NodeStatus
        → Map Str (List (FunctionRequest D))
        → List (FunctionRequest D)
        → Map Str (List (FunctionRequest D)) × Map Str NodeStatus × ℕ
    unfolding pick_node
    place_requests seed nodes reqs [] = (reqs, nodes, seed)
    place_requests seed nodes reqs (req ∷ rest) =
        let (node, seed') = pick_node seed nodes req in
        place_requests seed'
          (if node == [] then nodes else update node new_status take_executor nodes)
          (if node == [] then reqs else update node [] (λ rs. rs ++ req ∷ []) reqs) rest

    -- A request as it is sent, with the resources of its allocation.
    unfoldable pub with_allocation : FunctionRequest D → FunctionRequest D
    with_allocation req =
        let alloc = choose_allocation req config in
        record req { cpu_cores = alloc.cpu_cores; memory_mb = alloc.memory_mb }

    -- The loop that makes one call for each node.
    unfoldable pub routed_calls :
        FunctionCall D → Map Str (List (FunctionRequest D)) → Map Str (FunctionCall D)
    unfolding with_allocation
    routed_calls call_msg [] = []
    routed_calls call_msg ((node, reqs) ∷ rest) =
        (node, record call_msg { requests = map with_allocation reqs; sync_data_status = true })
        ∷ routed_calls call_msg rest

    unfoldable pub demeter_schedule_function_call :
        ℕ → Map Str NodeStatus → FunctionCall D → Map Str (FunctionCall D) × Map Str NodeStatus × ℕ
    unfolding place_requests routed_calls
    demeter_schedule_function_call seed nodes call_msg =
        if not config.enabled then ([], nodes, seed) else elim nodes [
          | [] ↦ ([], [], seed)
          | n ∷ ns ↦
              let (reqs, nodes', seed') = place_requests seed (n ∷ ns) [] call_msg.requests in
              (routed_calls call_msg reqs, nodes', seed')
        ]

-- ===== src/Coordinator/Calls/Scheduled.antt =====
-- pheromone/src/coordinator/func_call_handler.cpp: which calls are scheduled.
use mathlib.Core.List.{append-nil}
use demeter.Prelude.{
  ltb, leb, ltb→lt, Bool-cases, length, is_nil, count, count-map, Map, Str, nat_eq, str_eq, ℕ, ◌%◌,
  ◌≤◌, ◌<◌, ◌≡◌, refl, ap, ◌∙◌, ◌⊎◌, inl, inr, Bool, true, false, not, ◌&&◌, ◌||◌, Option, none,
  some, List, [], ◌∷◌, arith,
}
use demeter.Coordinator.{Argument, FunctionRequest, FunctionCall, NodeStatus}
use demeter.Coordinator.Demeter.{
  key_at, Double, DemeterSchedulerConfig, demeter_schedule_function_call, with_allocation,
  place_requests, routed_calls,
}
use demeter.Coordinator.Demeter.Placement.{Named, demeter_schedule_function_call-all}
use demeter.Coordinator.Calls.{
  scan_nodes, no_nodes, schedule_batch, schedule_single, schedule_default, schedule,
}
use demeter.Coordinator.Calls.Scans.{executors}
use demeter.Coordinator.Calls.Batch.{schedule_batch-all, schedule_batch-refused}
use demeter.Coordinator.Calls.Cuts.{requests_of}

-- A test of a request that does not look at its resources.
abbrev pub by_name : {D : Type 0} → (Str → List Argument → Bool) → FunctionRequest D → Bool
by_name p r = p r.name r.arguments

-- There is a node, and Demeter is enabled, the call is not a batch, or the nodes other than the
-- source have executors for the batch.
abbrev pub can_take : Bool → Str → Map Str NodeStatus → ℕ → Bool
can_take enabled source nodes req_num =
    not (is_nil nodes) && (enabled || leb req_num 1 || leb req_num (executors source nodes))

no_executors :
    (source : Str) (nodes : Map Str NodeStatus) → is_nil nodes ≡ true → executors source nodes ≡ 0
no_executors source [] h = refl
no_executors source (n ∷ ns) h = absurd (ground (arith, h))

nonempty {ℓ} : {A : Type ℓ} (xs : List A) → 0 < length xs → is_nil xs ≡ false
nonempty [] h = absurd (omega (arith, h))
nonempty (x ∷ xs) h = refl

is_nil-eq {ℓ} : {A : Type ℓ} (xs : List A) → is_nil xs ≡ true → xs ≡ []
is_nil-eq [] h = refl
is_nil-eq (x ∷ xs) h = absurd (ground (arith, h))

not_nil {ℓ} : {A : Type ℓ} (xs : List A) → is_nil xs ≡ false → 1 ≤ length xs
not_nil [] h = absurd (ground (arith, h))
not_nil (x ∷ xs) h = omega arith

module _ {D : Type 0} where
  -- Calls that hold every request of a message, in whatever order, if they can be taken; else none.
  abbrev pub Scheduled : Bool → FunctionCall D → Map Str (FunctionCall D) → Type 0
  Scheduled able msg calls =
      ((able ≡ true)
        × (is_nil calls ≡ false)
        × ((p : Str → List Argument → Bool)
            → count (by_name p) (requests_of calls) ≡ count (by_name p) msg.requests))
      ⊎ ((able ≡ false) × (calls ≡ []))

  count-all : (xs : List (FunctionRequest D)) → count (by_name (λ f args. true)) xs ≡ length xs
  count-all [] = refl
  count-all (x ∷ xs) = omega (arith, count-all xs)

  -- Calls that hold a request are not none.
  some_calls :
      (calls : Map Str (FunctionCall D)) (requests : List (FunctionRequest D))
      → 1 ≤ length requests
      → ((p : Str → List Argument → Bool)
          → count (by_name p) (requests_of calls) ≡ count (by_name p) requests)
      → is_nil calls ≡ false
  some_calls [] requests h all = absurd (omega (arith, h, all (λ f args. true), count-all requests))
  some_calls (c ∷ calls) requests h all = refl

  batch-Scheduled :
      (msg : FunctionCall D) (nodes : Map Str NodeStatus)
      → 1 < length msg.requests
      → (calls : Map Str (FunctionCall D)) × (schedule_batch msg nodes ≡ some calls)
        × Scheduled (can_take false msg.source nodes (length msg.requests)) msg calls
  batch-Scheduled msg nodes many =
      elim (Bool-cases (leb (length msg.requests) (executors msg.source nodes))) [
        | inr large ↦
            ([], schedule_batch-refused msg nodes large, inr (ground (arith, large, many), refl))
        | inl fits ↦
            let (calls, ends, all) = schedule_batch-all msg nodes (omega (arith, many)) in
            let every : (p : Str → List Argument → Bool)
                → count (by_name p) (requests_of calls) ≡ count (by_name p) msg.requests =
              λ p. all (by_name p) ∙ rw fits refl in
            (
              calls,
              ends,
              inl (
                ground (arith, fits, many, no_executors msg.source nodes),
                some_calls calls msg.requests (omega (arith, many)) every,
                every,
              ),
            )
      ]

  module _ (rand_r : ℕ → ℕ × ℕ) where
    single-call :
        (seed : ℕ) (msg : FunctionCall D) (node : Str × NodeStatus) (nodes : Map Str NodeStatus)
        → (ip : Str) × ((schedule_single rand_r seed msg (node ∷ nodes)).0 ≡ (ip, msg) ∷ [])
    unfolding schedule_single
    single-call seed msg node nodes =
        let n = scan_nodes msg.source no_nodes (node ∷ nodes) in
        elim (Bool-cases (ltb 0 n.max_executors)) [
          | inl free ↦ (n.node_with_max_executors, rw (schedule_single, free))
          | inr busy ↦ (
            key_at ((rand_r seed).0 % length (node ∷ nodes)) (node ∷ nodes),
            rw (schedule_single, busy),
          )
        ]

    single-Scheduled :
        (seed : ℕ) (msg : FunctionCall D) (nodes : Map Str NodeStatus)
        → length msg.requests ≤ 1
        → Scheduled
            (can_take false msg.source nodes (length msg.requests))
            msg
            (schedule_single rand_r seed msg nodes).0
    single-Scheduled seed msg [] few = inr (refl, unfold schedule_single scan_nodes in refl)
    single-Scheduled seed msg (node ∷ nodes) few =
        let (ip, one) = single-call seed msg node nodes in
        inl (
          ground (arith, few),
          ap is_nil one,
          λ p.
              ap (λ calls. count (by_name p) (requests_of calls)) one
              ∙ ap (count (by_name p)) (append-nil msg.requests),
        )

    default-Scheduled :
        (seed : ℕ) (msg : FunctionCall D) (nodes : Map Str NodeStatus)
        → (calls : Map Str (FunctionCall D)) × (seed' : ℕ) × (schedule_default rand_r seed msg nodes
            ≡ some (calls, seed'))
          × Scheduled (can_take false msg.source nodes (length msg.requests)) msg calls
    unfolding schedule_default
    default-Scheduled seed msg nodes = elim (Bool-cases (ltb 1 (length msg.requests))) [
      | inl many ↦
          let (calls, ends, all) =
            batch-Scheduled msg nodes (ltb→lt 1 (length msg.requests) many) in
          (calls, seed, rw (schedule_default, many, ends) refl, all)
      | inr few ↦ (
        (schedule_single rand_r seed msg nodes).0,
        (schedule_single rand_r seed msg nodes).1,
        rw (schedule_default, few) refl,
        single-Scheduled seed msg nodes (ground (arith, few)),
      )
    ]

    module _ (d : Double D) (config : DemeterSchedulerConfig D) where
      abbrev pub able : FunctionCall D → Map Str NodeStatus → Bool
      able msg nodes = can_take config.enabled msg.source nodes (length msg.requests)

      -- What is ensured of the scheduling of a call.
      abbrev pub Result : ℕ → FunctionCall D → Map Str NodeStatus → Type 0
      Result seed msg nodes =
          (calls : Map Str (FunctionCall D)) × (nodes' : Map Str NodeStatus) × (seed' : ℕ)
          × (schedule rand_r d config seed msg nodes ≡ some (calls, nodes', seed'))
          × Scheduled (able msg nodes) msg calls

      -- Demeter schedules nothing.
      quiet-Scheduled :
          (seed : ℕ) (msg : FunctionCall D) (nodes : Map Str NodeStatus)
          → demeter_schedule_function_call d rand_r config msg.source seed nodes msg
            ≡ ([], nodes, seed)
          → able msg nodes ≡ can_take false msg.source nodes (length msg.requests)
          → Result seed msg nodes
      unfolding schedule
      quiet-Scheduled seed msg nodes quiet same =
          let (calls, seed', ends, all) = default-Scheduled seed msg nodes in
          (
            calls,
            nodes,
            seed',
            ap after quiet
                ∙ ap (λ o. elim o [ none ↦ none | some (c, last) ↦ some (c, nodes, last) ]) ends,
            rw same all,
          )
        where
          after :
              Map Str (FunctionCall D) × Map Str NodeStatus × ℕ
              → Option (Map Str (FunctionCall D) × Map Str NodeStatus × ℕ)
          after (routed, nodes', seed') = elim routed [
            | [] ↦ elim (schedule_default rand_r seed' msg nodes') [
              | none ↦ none
              | some (scheduled, last) ↦ some (scheduled, nodes', last)
            ]
            | c ∷ cs ↦ some (c ∷ cs, nodes', seed')
          ]

      routed-Scheduled :
          (seed : ℕ) (msg : FunctionCall D) (nodes : Map Str NodeStatus)
          → config.enabled ≡ true
          → Named nodes
          → 0 < length nodes
          → 1 ≤ length msg.requests
          → Result seed msg nodes
      unfolding with_allocation schedule
      routed-Scheduled seed msg nodes enabled named some_node some_request =
          (r.0, r.1, r.2, routed r.0 refl filled, inl (taken, filled, every))
        where
          r : Map Str (FunctionCall D) × Map Str NodeStatus × ℕ
          r = demeter_schedule_function_call d rand_r config msg.source seed nodes msg

          every :
              (p : Str → List Argument → Bool)
              → count (by_name p) (requests_of r.0) ≡ count (by_name p) msg.requests
          every p =
              demeter_schedule_function_call-all d rand_r config msg.source (by_name p) seed nodes
                msg enabled named some_node
              ∙ count-map (by_name p) (with_allocation d rand_r config msg.source) msg.requests

          filled : is_nil r.0 ≡ false
          filled = some_calls r.0 msg.requests some_request every

          taken : able msg nodes ≡ true
          taken = ground (arith, enabled, nonempty nodes some_node)

          routed :
              (calls : Map Str (FunctionCall D))
              → r.0 ≡ calls
              → is_nil calls ≡ false
              → schedule rand_r d config seed msg nodes ≡ some (r.0, r.1, r.2)
          routed [] e full = absurd (ground (arith, full))
          routed (c ∷ cs) e full = rw (schedule, e) refl

      pub schedule-Scheduled :
          (seed : ℕ) (msg : FunctionCall D) (nodes : Map Str NodeStatus)
          → Named nodes
          → Result seed msg nodes
      unfolding demeter_schedule_function_call place_requests routed_calls
      schedule-Scheduled seed msg [] named = quiet-Scheduled seed msg [] (ground arith) refl
      schedule-Scheduled seed msg (n ∷ ns) named = elim (Bool-cases config.enabled) [
        | inr off ↦ quiet-Scheduled seed msg (n ∷ ns) (rw off refl) (rw off refl)
        | inl on ↦ elim (Bool-cases (is_nil msg.requests)) [
          | inl no_request ↦
              quiet-Scheduled seed msg (n ∷ ns) (rw (on, is_nil-eq msg.requests no_request) refl)
                (ground (arith, on, is_nil-eq msg.requests no_request))
          | inr requested ↦
              routed-Scheduled seed msg (n ∷ ns) on named (omega arith)
                (not_nil msg.requests requested)
        ]
      ]

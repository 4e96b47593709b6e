-- ===== src/Coordinator/Tests/Scheduling.antt =====
-- A concrete cluster, triggers and function calls, for the theorems on the coordinator.
use demeter.Prelude.{
  ltb, leb, nat_eqb, if◌then◌else◌, Ensures, length, get_elem?, All, count, pos_part, Map, is_some,
  lookup, Str, bytes, str_eqb, nat_eq, str_eq, pos, ℕ, ◌+◌, ◌*◌, ◌/◌, ◌≤◌, ◌<◌, ◌≡◌, refl, ◌↔◌, ◌⊎◌,
  Bool, true, false, none, some, List, [], ◌∷◌, map, arith,
}
use demeter.Trigger.Any.{
  TriggerPointer, PrimitiveType, new_immediate, gen_trigger_pointer, set_trigger_option,
}
use demeter.Trigger.Tests.{Message, immediate, messages}
use demeter.Coordinator.{
  Coordinator, Outgoing, NodeStatus, FunctionRequest, FunctionCall, success, empty_update,
}
use demeter.Coordinator.Invariant.{IsConsistent, owner, triggers_of}
use demeter.Coordinator.Triggers.{
  TriggerOperationRequest, TriggerOperationType, Outcome, add_trigger_to, delete_trigger_from,
  trigger_operation,
}
use demeter.Coordinator.Triggers.Outcomes.{
  delete_trigger_from-add_trigger_to, trigger_operation-none,
}
use demeter.Coordinator.Demeter.{
  Double, DemeterSchedulerConfig, DemeterAllocation, best_node, choose_allocation, is_enough,
  required_mb, demeter_schedule_function_call, with_allocation,
}
use demeter.Coordinator.Demeter.Config.{
  Yaml, load_demeter_scheduler_config, load_demeter_scheduler_config-allocations,
}
use demeter.Coordinator.Demeter.Allocation.{choose_allocation-smallest}
use demeter.Coordinator.Demeter.Placement.{Free, best_node-Free, demeter_schedule_function_call-all}
use demeter.Coordinator.Calls.{func_call_handler, Nodes, split_batch, schedule_batch}
use demeter.Coordinator.Calls.Rounds.{Within}
use demeter.Coordinator.Calls.Cuts.{requests_of, Assigned}
use demeter.Coordinator.Calls.Scheduled.{can_take}
use demeter.Coordinator.Calls.Total.{Answered, func_call_handler-all}
use demeter.Coordinator.Calls.Scans.{executors, Scanned}
use demeter.Coordinator.Calls.Batch.{split_batch-all, schedule_batch-all}
use demeter.Coordinator.Run.{
  Event, bucket_op, trigger_op, status_update, func_call, Env, initial, run,
}
use demeter.Coordinator.Run.Consistency.{run-IsConsistent}
use demeter.Coordinator.Triggers.{add_trigger}
use demeter.Coordinator.Tests.{shop, cart, create_cart, with_cart, initial-IsConsistent}

abbrev add_alert : TriggerOperationRequest Message
add_alert = record {
  operation_type = add_trigger;
  app_name = shop;
  bucket_name = cart;
  trigger_name = bytes "alert";
  trigger_option = 0;
  primitive_type = PrimitiveType.immediate;
  primitive = immediate (record { function = bytes "notify" });
  request_id = bytes "r3";
  response_address = bytes "tcp://10.0.0.9:3";
  hints = [];
}

abbrev alert : TriggerPointer
alert = new_immediate (bytes "notify") (bytes "alert")

delete_trigger_from-add_trigger_to_example :
    (added : Outcome Message) × (add_trigger_to messages 7 with_cart add_alert empty_update
      ≡ some added)
    × (added.1 ≡ success)
    × (triggers_of added.0 cart ≡ set_trigger_option alert 0 ∷ [])
    × ((delete_trigger_from messages added.0 add_alert empty_update).1 ≡ success)
    × ((bucket : Str)
        → triggers_of (delete_trigger_from messages added.0 add_alert empty_update).0 bucket
          ≡ triggers_of with_cart bucket)
unfolding lookup str_eqb gen_trigger_pointer
delete_trigger_from-add_trigger_to_example =
    delete_trigger_from-add_trigger_to messages 7 with_cart add_alert empty_update alert
      empty_update refl refl tt

trigger_operation-none_example :
    (trigger_operation messages 7 with_cart add_alert empty_update ≡ none) ↔ (
      (TriggerOperationType.add_trigger ≡ TriggerOperationType.add_trigger)
      × (is_some (owner with_cart cart) ≡ true)
      × (gen_trigger_pointer messages 7 PrimitiveType.immediate
            (bytes "alert")
            (immediate (record { function = bytes "notify" }))
          ≡ none))
trigger_operation-none_example = trigger_operation-none messages 7 with_cart add_alert empty_update

-- Whole numbers in place of `double`.
abbrev whole : Double ℕ
whole = record {
  add = λ a b. a + b;
  mul = λ a b. a * b;
  div = λ a b. a / b;
  less = ltb;
  less_eq = leb;
  of_ℕ = λ n. n;
  of_int = pos_part;
  literal = λ digits places. 1;
  minus_infinity = 0;
}

abbrev small : DemeterAllocation ℕ
small = record { name = bytes "small"; cpu_cores = 1; memory_mb = 128 }

abbrev large : DemeterAllocation ℕ
large = record { name = bytes "large"; cpu_cores = 2; memory_mb = 512 }

abbrev config : DemeterSchedulerConfig ℕ
config = record {
  enabled = true;
  memory_loss_factor = 1;
  allocations = large ∷ small ∷ [];
  node_profiles = [];
}

abbrev request : Str → FunctionRequest ℕ
request name = record { name = name; arguments = []; cpu_cores = 0; memory_mb = 0 }

abbrev next_random : ℕ → ℕ × ℕ
next_random seed = (seed, seed + 1)

abbrev status : ℕ → NodeStatus
status n = record { tp = 0; avail_executors = pos n; functions = [] }

abbrev cluster : Map Str NodeStatus
cluster = (bytes "10.0.0.1", status 2) ∷ (bytes "10.0.0.2", status 1) ∷ []

abbrev call : FunctionCall ℕ
call = record {
  app_name = shop;
  requests = request (bytes "a") ∷ request (bytes "b") ∷ request (bytes "c") ∷ [];
  source = [];
  request_id = bytes "r4";
  resp_address = bytes "tcp://10.0.0.9:4";
  session_id = bytes "0123456789abcdef";
  sync_data_status = false;
}

choose_allocation-smallest_example :
    ((i : ℕ) × (get_elem? (large ∷ small ∷ []) i
        ≡ some (choose_allocation whole (request (bytes "a")) config)))
    × (All
          (λ a. is_enough whole (required_mb whole (request (bytes "a")) config) a ≡ false)
          (large ∷ small ∷ [])
        ⊎ ((is_enough whole
                (required_mb whole (request (bytes "a")) config)
                (choose_allocation whole (request (bytes "a")) config)
              ≡ true)
            × All
                (λ a.
                  is_enough whole (required_mb whole (request (bytes "a")) config) a ≡ true
                  → (choose_allocation whole (request (bytes "a")) config).memory_mb ≤ a.memory_mb)
                (large ∷ small ∷ [])))
choose_allocation-smallest_example =
    choose_allocation-smallest whole (request (bytes "a")) config (omega arith)

best_node-Free_example :
    (best_node whole (bytes "10.0.0.1") (λ ip s. pos_part s.avail_executors) 0 [] cluster ≡ [])
    ⊎ Free whole
        (bytes "10.0.0.1")
        cluster
        (best_node whole (bytes "10.0.0.1") (λ ip s. pos_part s.avail_executors) 0 [] cluster)
best_node-Free_example =
    best_node-Free whole (bytes "10.0.0.1") (λ ip s. pos_part s.avail_executors) cluster 0 []

demeter_schedule_function_call-all_example :
    count
      (λ r. true)
      (requests_of (demeter_schedule_function_call whole next_random config [] 1 cluster call).0)
    ≡ count (λ r. true) (map (with_allocation whole next_random config []) call.requests)
unfolding str_eqb
demeter_schedule_function_call-all_example =
    demeter_schedule_function_call-all whole next_random config [] (λ r. true) 1 cluster call refl
      (refl, (refl, tt)) (omega arith)

abbrev nodes : Nodes
nodes = record {
  total_executors = 3;
  avail_nodes = (bytes "10.0.0.1", 2) ∷ (bytes "10.0.0.2", 1) ∷ [];
  max_executors = 2;
  node_with_max_executors = bytes "10.0.0.1";
}

nodes-Scanned : Scanned nodes
nodes-Scanned = record {
  total = refl;
  positive = (omega arith, (omega arith, tt));
  bounded = omega arith;
}

split_batch-all_example :
    (calls : Map Str (FunctionCall ℕ)) × (loads : List ℕ) × (split_batch call nodes ≡ some calls)
    × (requests_of calls ≡ call.requests)
    × Assigned calls (bytes "10.0.0.1" ∷ bytes "10.0.0.2" ∷ []) loads
    × Within loads (0 ∷ 0 ∷ []) (2 ∷ 1 ∷ [])
split_batch-all_example = split_batch-all call nodes nodes-Scanned (omega arith) (omega arith)

schedule_batch-all_example :
    (calls : Map Str (FunctionCall ℕ)) × (schedule_batch call cluster ≡ some calls)
    × ((p : FunctionRequest ℕ → Bool)
        → count p (requests_of calls)
          ≡ (if leb 3 (executors [] cluster) then count p call.requests else 0))
schedule_batch-all_example = schedule_batch-all call cluster (omega arith)

abbrev env : Env Message ℕ
env = record {
  pb = messages;
  double = whole;
  rand_r = next_random;
  private_ip = bytes "10.0.0.9";
  thread_id = 0;
  io_thread_num = 1;
  config = config;
}

abbrev events : List (ℕ × Event Message ℕ)
events =
    (1, bucket_op create_cart)
    ∷ (2, trigger_op add_alert)
    ∷ (3, status_update (record { ip = bytes "10.0.0.1"; avail_executors = 2; functions = [] }))
    ∷ (4, func_call call)
    ∷ []

run-IsConsistent_example : Ensures (λ r. IsConsistent r.0.0) (run env (initial, 1) events)
run-IsConsistent_example = run-IsConsistent env (initial, 1) events initial-IsConsistent

func_call_handler-all_example :
    (c' : Coordinator) × (sent : List (Outgoing Message ℕ)) × (last : ℕ) × (func_call_handler
        next_random whole config 1 1
        (record initial { node_status_map = cluster })
        call
      ≡ some (c', sent, last))
    × Answered (can_take true [] cluster 3) call sent
func_call_handler-all_example =
    func_call_handler-all next_random whole config 1 1
      (record initial { node_status_map = cluster }) call (omega arith)
      (unfold str_eqb in (refl, (refl, tt)))

-- A file with a section that is empty: node 0 is the file, node 1 the section.
abbrev file : Yaml ℕ ℕ
file = record {
  entry = λ y key. if nat_eqb y 0 then some 1 else none;
  as_unsigned = λ y. none;
  as_double = λ y. none;
  as_string = λ y. none;
  items = λ y. [];
}

load_demeter_scheduler_config-allocations_example :
    Ensures (λ config. 0 < length config.allocations) (load_demeter_scheduler_config file whole 0)
load_demeter_scheduler_config-allocations_example =
    load_demeter_scheduler_config-allocations file whole 0 1 refl

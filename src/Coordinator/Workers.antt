-- ===== src/Coordinator/Workers.antt =====
-- pheromone/src/coordinator/notify_handler.cpp: the arguments of a call that an action makes, and
-- the worker that it is sent to.
use demeter.Prelude.{
  ltb, if◌then◌else◌, ◌>>=◌, add, length, get_elem?, take, drop, pos_part, Map, or_default, lookup,
  update, ◌==◌, Str, nat_eq, str_eq, ℕ, Option, none, some, List, [], ◌∷◌,
}
use demeter.Names.{find_byte, get_local_object_name, delimiter}
use demeter.Names.Split.{implode}
use demeter.Coordinator.{Coordinator, Argument, NodeStatus}
use demeter.Coordinator.Demeter.{new_status}

-- `ip.substr(6, ip.find(":", 6) - 6)`; `substr` throws if the string is shorter than 6 bytes.
unfoldable pub host_of : Str → Option Str
unfolding find_byte
host_of ip =
    let rest = drop 6 ip in
    if ltb (length ip) 6
    then none
    else some (elim (find_byte b':' rest) [ none ↦ rest | some i ↦ take i rest ])

-- The values of the objects of an action; `none` if one of them is not at the coordinator.
unfoldable pub cached_values : Map Str Str → Str → List (Str × Str) → Option (List Str)
cached_values vals bucket [] = some []
cached_values vals bucket ((session, key) ∷ rest) = do
  val ← lookup (get_local_object_name bucket key session) vals
  later ← cached_values vals bucket rest
  some (val ∷ later)

-- The arguments by reference, and the hosts that hold the data. An object with no address makes
-- the handler dereference the end of an empty set.
unfoldable pub reference_args :
    Map Str (List Str) → Str → ℕ → List (Str × Str) → Option (List Argument × List Str)
unfolding host_of
reference_args addresses bucket arg_flag [] = some ([], [])
reference_args addresses bucket arg_flag ((session, key) ∷ rest) = do
  data_address ← get_elem? (or_default [] (lookup key addresses)) 0
  host ← host_of data_address
  (args, hosts) ← reference_args addresses bucket arg_flag rest
  some (
    record {
      body = get_local_object_name bucket key session;
      arg_flag = arg_flag;
      data_address = data_address;
    }
        ∷ args,
    add host hosts,
  )

-- All values as one argument or, failing that, references.
unfoldable pub action_args :
    Coordinator → Str → ℕ → List (Str × Str) → Option (List Argument × List Str)
unfolding cached_values reference_args
action_args c bucket arg_flag session_keys =
    elim (cached_values c.bucket_key_val_map bucket session_keys) [
      | some vals ↦
          some (record { body = implode delimiter vals; arg_flag = 0; data_address = [] } ∷ [], [])
      | none ↦
          reference_args (or_default [] (lookup bucket c.bucket_key_address_map)) bucket arg_flag
            session_keys
    ]

-- `node_status_map[ip]` makes an entry for a host that is not known.
unfoldable pub touch_nodes : List Str → Map Str NodeStatus → Map Str NodeStatus
touch_nodes [] nodes = nodes
touch_nodes (ip ∷ ips) nodes = touch_nodes ips (update ip new_status (λ s. s) nodes)

-- The two loops that pick a worker: among some hosts, and among all nodes.
unfoldable pub best_host : Map Str NodeStatus → ℕ → Str → List Str → ℕ × Str
best_host nodes max_executors worker [] = (max_executors, worker)
best_host nodes max_executors worker (ip ∷ ips) =
    let avail = pos_part (or_default new_status (lookup ip nodes)).avail_executors in
    let better = ltb max_executors avail in
    best_host nodes (if better then avail else max_executors) (if better then ip else worker) ips

unfoldable pub best_of_all : ℕ → Str → Map Str NodeStatus → Str
best_of_all max_executors worker [] = worker
best_of_all max_executors worker ((ip, status) ∷ nodes) =
    let avail = pos_part status.avail_executors in
    let better = ltb max_executors avail in
    best_of_all (if better then avail else max_executors) (if better then ip else worker) nodes

unfoldable pub pick_worker : List Str → Map Str NodeStatus → Str
unfolding best_host best_of_all
pick_worker hosts nodes =
    let (max_executors, worker) = best_host nodes 0 [] hosts in
    if worker == [] then best_of_all max_executors worker nodes else worker

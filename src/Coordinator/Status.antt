-- ===== src/Coordinator/Status.antt =====
-- pheromone/src/coordinator/coordinator.cpp, the status branch of `run`, and
-- pheromone/include/coordinator/coord_handlers.hpp, `NodeStatus`.
use demeter.Prelude.{
  of_list, ℤ, int_of_u32, lookup, insert, Str, nat_eq, str_eq, ℕ, none, some, List,
}
use demeter.Trigger.ByTime.{TimePoint}
use demeter.Coordinator.{Coordinator, NodeStatus}

pub record UpdateStatusMessage : Type 0 where
  pub ip : Str
  pub avail_executors : ℕ
  pub functions : List Str

unfoldable pub update_status : NodeStatus → TimePoint → ℤ → List Str → NodeStatus
update_status s now avail_executors functions = record s {
  avail_executors = avail_executors;
  functions = functions;
  tp = now;
}

unfoldable pub status_handler : TimePoint → Coordinator → UpdateStatusMessage → Coordinator
unfolding update_status
status_handler now c msg =
    let avail = int_of_u32 msg.avail_executors in
    let functions = of_list msg.functions in
    record c {
      node_status_map =
          insert msg.ip
            (elim (lookup msg.ip c.node_status_map) [
              | some status ↦ update_status status now avail functions
              | none ↦ record { tp = now; avail_executors = avail; functions = functions }
            ])
            c.node_status_map;
    }

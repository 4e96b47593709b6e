-- ===== src/Coordinator/Run/Consistency.antt =====
-- pheromone/src/coordinator/coordinator.cpp, `run`: the maps of buckets, applications and triggers
-- under every sequence of messages.
use demeter.Prelude.{
  Ensures, Ensures-bind, Ensures-bind_any, Map, Str, nat_eq, str_eq, ℕ, Option, List, [], ◌∷◌,
}
use demeter.Trigger.ByTime.{TimePoint}
use demeter.Coordinator.{
  NodeStatus, UpdateCoordMsg, empty_update, Coordinator, Outgoing, FunctionCall,
}
use demeter.Coordinator.Buckets.{bucket_op_handler}
use demeter.Coordinator.Triggers.{trigger_op_handler, trigger_operation}
use demeter.Coordinator.Apps.{app_register_handler, register_dependencies}
use demeter.Coordinator.Status.{status_handler}
use demeter.Coordinator.Calls.{send_calls, dispatch, func_call_handler, schedule, with_session}
use demeter.Coordinator.Notify.{notify_handler}
use demeter.Coordinator.Notify.Effects.{notify_objects-IsConsistent}
use demeter.Coordinator.Run.{
  Event, Env, step, run, notify, query, bucket_op, trigger_op, status_update, func_create,
  app_regist, func_call, forward_func,
}
use demeter.Coordinator.Invariant.{IsConsistent}
use demeter.Coordinator.Invariant.Handlers.{
  bucket_operation-IsConsistent, trigger_operation-IsConsistent, register_dependencies-IsConsistent,
}

module _ {B D : Type 0} (env : Env B D) where
  abbrev Result : Type 0
  Result = (Coordinator × ℕ) × List (Outgoing B D)

  abbrev Fine : Option Result → Type 0
  Fine = Ensures (λ r. IsConsistent r.0.0)

  call-IsConsistent :
      (seed : ℕ) (c : Coordinator) (msg : FunctionCall D)
      → IsConsistent c
      → Ensures
          (λ (r : Coordinator × List (Outgoing B D) × ℕ). IsConsistent r.0)
          (func_call_handler env.rand_r env.double env.config env.io_thread_num seed c msg)
  unfolding func_call_handler dispatch
  call-IsConsistent seed c msg ok =
      Ensures-bind_any (λ (r : Coordinator × List (Outgoing B D) × ℕ). IsConsistent r.0)
        (schedule env.rand_r env.double env.config (with_session env.rand_r seed msg).1
          (with_session env.rand_r seed msg).0 c.node_status_map)
        _ (λ r. sent r.1 r.2 r.0)
    where
      sent :
          (nodes : Map Str NodeStatus) (seed' : ℕ) (scheduled : Map Str (FunctionCall D))
          → Ensures
              (λ (r : Coordinator × List (Outgoing B D) × ℕ). IsConsistent r.0)
              (dispatch env.rand_r {B = B} env.io_thread_num seed'
                (record c { node_status_map = nodes })
                (with_session env.rand_r seed msg).0
                scheduled)
      sent nodes seed' [] = record { owned = ok.owned; triggered = ok.triggered }
      sent nodes seed' (s ∷ ss) =
          Ensures-bind_any (λ (r : Coordinator × List (Outgoing B D) × ℕ). IsConsistent r.0)
            (send_calls env.rand_r {B = B} env.io_thread_num seed' (s ∷ ss)) _
            (λ r. record { owned = ok.owned; triggered = ok.triggered })

  step-IsConsistent :
      (now : TimePoint) (s : Coordinator × ℕ) (event : Event B D)
      → IsConsistent s.0
      → Fine (step env now s event)
  unfolding step notify_handler bucket_op_handler trigger_op_handler app_register_handler
      status_handler
  step-IsConsistent now (c, seed) (notify request) ok =
      notify_objects-IsConsistent B (env.double.of_ℕ 0) env.rand_r env.io_thread_num now request
        (c, seed) request.addresses ok
  step-IsConsistent now (c, seed) (query request) ok = ok
  step-IsConsistent now (c, seed) (bucket_op request) ok =
      bucket_operation-IsConsistent c request ok
  step-IsConsistent now (c, seed) (trigger_op request) ok =
      let msg : UpdateCoordMsg B = record empty_update {
        ip = env.private_ip;
        thread_id = env.thread_id;
        app_name = request.app_name;
      } in
      Ensures-bind {B = Result} (λ r. IsConsistent r.0) (λ r. IsConsistent r.0.0)
        (trigger_op_handler env.pb now env.private_ip env.thread_id c request) _
        (Ensures-bind (λ r. IsConsistent r.0)
          (λ (r : Coordinator × List (Outgoing B D)). IsConsistent r.0)
          (trigger_operation env.pb now c request msg) _
          (trigger_operation-IsConsistent env.pb now c request msg ok) (λ r k. k))
        (λ r k. k)
  step-IsConsistent now (c, seed) (status_update msg) ok = record {
    owned = ok.owned;
    triggered = ok.triggered;
  }
  step-IsConsistent now (c, seed) func_create ok = ok
  step-IsConsistent now (c, seed) (app_regist app) ok =
      let msg : UpdateCoordMsg B = record empty_update {
        ip = env.private_ip;
        thread_id = env.thread_id;
        app_name = app.app_name;
        functions = app.functions;
      } in
      Ensures-bind {B = Result} (λ r. IsConsistent r.0) (λ r. IsConsistent r.0.0)
        (app_register_handler env.pb now env.private_ip env.thread_id c app) _
        (Ensures-bind (λ r. IsConsistent r.0)
          (λ (r : Coordinator × List (Outgoing B D)). IsConsistent r.0)
          (register_dependencies env.pb now app.app_name app.dependencies (c, msg)) _
          (register_dependencies-IsConsistent env.pb now app.app_name app.dependencies (c, msg) ok)
          (λ r k. k))
        (λ r k. k)
  step-IsConsistent now (c, seed) (func_call msg) ok =
      Ensures-bind (λ (r : Coordinator × List (Outgoing B D) × ℕ). IsConsistent r.0)
        (λ (r : Result). IsConsistent r.0.0)
        (func_call_handler env.rand_r env.double env.config env.io_thread_num seed c msg) _
        (call-IsConsistent seed c msg ok) (λ r k. k)
  step-IsConsistent now (c, seed) (forward_func msg) ok =
      Ensures-bind (λ (r : Coordinator × List (Outgoing B D) × ℕ). IsConsistent r.0)
        (λ (r : Result). IsConsistent r.0.0)
        (func_call_handler env.rand_r env.double env.config env.io_thread_num seed c msg) _
        (call-IsConsistent seed c msg ok) (λ r k. k)

  -- From a consistent state every sequence of messages that the loop handles without a fault leads
  -- to a consistent one.
  pub run-IsConsistent :
      (s : Coordinator × ℕ) (events : List (TimePoint × Event B D))
      → IsConsistent s.0
      → Ensures (λ r. IsConsistent r.0.0) (run env s events)
  unfolding run
  run-IsConsistent s [] ok = ok
  run-IsConsistent s ((now, event) ∷ events) ok =
      Ensures-bind (λ (r : Result). IsConsistent r.0.0) (λ (r : Result). IsConsistent r.0.0)
        (step env now s event) _ (step-IsConsistent now s event ok)
        (λ r k.
          Ensures-bind (λ (r : Result). IsConsistent r.0.0) (λ (r : Result). IsConsistent r.0.0)
            (run env r.0 events) _ (run-IsConsistent r.0 events k) (λ q l. l))

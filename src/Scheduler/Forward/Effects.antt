-- ===== src/Scheduler/Forward/Effects.antt =====
-- pheromone/include/scheduler/comm_helper.hpp: a forwarded call reaches no executor.
use mathlib.Core.List.{append-nil}
use demeter.Prelude.{
  ltb, Ensures, Ensures-bind, if-both, Ensures-bind_any, lookup, Str, nat_eq, str_eq, ℕ, ◌≡◌, refl,
  ap, ◌∙◌, false, List, [], ◌∷◌, ◌++◌,
}
use demeter.Coordinator.{Argument, FunctionRequest}
use demeter.Scheduler.{
  Sent, CommHelper, to_executor, to_coordinator, to_data_server, to_data_client, kvs_get, kvs_put,
  notify, status, client_response, copy,
}
use demeter.Scheduler.Comm.{get_data_server_addr, get_io_thread_id}
use demeter.Scheduler.Forward.{
  key_arguments, forward_arguments, forward_requests, forward_func_call,
}

-- What went to the executors, in order.
unfoldable pub executor_messages : {D : Type 0} → List (Sent D) → List (ℕ × Str)
executor_messages [] = []
executor_messages (to_executor id msg ∷ sent) = (id, msg) ∷ executor_messages sent
executor_messages (to_coordinator a c ∷ sent) = executor_messages sent
executor_messages (to_data_server a m ∷ sent) = executor_messages sent
executor_messages (to_data_client a m ∷ sent) = executor_messages sent
executor_messages (kvs_get t k ∷ sent) = executor_messages sent
executor_messages (kvs_put t k v ∷ sent) = executor_messages sent
executor_messages (notify a r ∷ sent) = executor_messages sent
executor_messages (status a r ∷ sent) = executor_messages sent
executor_messages (client_response a r ∷ sent) = executor_messages sent
executor_messages (copy k v ∷ sent) = executor_messages sent

pub executor_messages-append :
    {D : Type 0} (xs ys : List (Sent D))
    → executor_messages (xs ++ ys) ≡ executor_messages xs ++ executor_messages ys
unfolding executor_messages
executor_messages-append [] ys = refl
executor_messages-append (to_executor id msg ∷ sent) ys =
    ap (◌∷◌ (id, msg)) (executor_messages-append sent ys)
executor_messages-append (to_coordinator a c ∷ sent) ys = executor_messages-append sent ys
executor_messages-append (to_data_server a m ∷ sent) ys = executor_messages-append sent ys
executor_messages-append (to_data_client a m ∷ sent) ys = executor_messages-append sent ys
executor_messages-append (kvs_get t k ∷ sent) ys = executor_messages-append sent ys
executor_messages-append (kvs_put t k v ∷ sent) ys = executor_messages-append sent ys
executor_messages-append (notify a r ∷ sent) ys = executor_messages-append sent ys
executor_messages-append (status a r ∷ sent) ys = executor_messages-append sent ys
executor_messages-append (client_response a r ∷ sent) ys = executor_messages-append sent ys
executor_messages-append (copy k v ∷ sent) ys = executor_messages-append sent ys

module _ {D : Type 0} where
  key_arguments-sent :
      (flag : ℕ) (args : List Str) (h : CommHelper D)
      → Ensures
          (λ (r : List Argument × CommHelper D). r.1.sent ≡ h.sent)
          (key_arguments flag args h)
  unfolding key_arguments get_data_server_addr get_io_thread_id
  key_arguments-sent flag [] h = refl
  key_arguments-sent flag (a ∷ []) h = tt
  key_arguments-sent flag (a ∷ b ∷ []) h = refl
  key_arguments-sent flag (a ∷ b ∷ c ∷ args) h =
      Ensures-bind (λ (r : List Argument × CommHelper D). r.1.sent ≡ h.sent)
        (λ (r : List Argument × CommHelper D). r.1.sent ≡ h.sent)
        (key_arguments flag args (get_data_server_addr false h).1) _
        (key_arguments-sent flag args (get_data_server_addr false h).1) (λ r e. e)

  forward_arguments-sent :
      (flag : ℕ) (args : List Str) (h : CommHelper D)
      → Ensures
          (λ (r : List Argument × CommHelper D). r.1.sent ≡ h.sent)
          (forward_arguments flag args h)
  unfolding forward_arguments
  forward_arguments-sent flag args h =
      if-both (Ensures (λ (r : List Argument × CommHelper D). r.1.sent ≡ h.sent)) (ltb 0 flag) _ _
        (key_arguments-sent flag args h) refl

  forward_requests-sent :
      (names : List Str) (z : D) (flag : ℕ) (argss : List (List Str)) (h : CommHelper D)
      → Ensures
          (λ (r : List (FunctionRequest D) × CommHelper D). r.1.sent ≡ h.sent)
          (forward_requests z flag names argss h)
  unfolding forward_requests
  forward_requests-sent [] z flag argss h = refl
  forward_requests-sent (name ∷ names) z flag [] h = tt
  forward_requests-sent (name ∷ names) z flag (args ∷ argss) h =
      Ensures-bind (λ (r : List Argument × CommHelper D). r.1.sent ≡ h.sent)
        (λ (r : List (FunctionRequest D) × CommHelper D). r.1.sent ≡ h.sent)
        (forward_arguments flag args h) _ (forward_arguments-sent flag args h)
        (λ r e.
          Ensures-bind (λ (q : List (FunctionRequest D) × CommHelper D). q.1.sent ≡ r.1.sent)
            (λ (q : List (FunctionRequest D) × CommHelper D). q.1.sent ≡ h.sent)
            (forward_requests z flag names argss r.1) _
            (forward_requests-sent names z flag argss r.1) (λ q k. k ∙ e))

  pub executor_messages-forward_func_call :
      (z : D) (client app : Str) (names : List Str) (argss : List (List Str)) (flag : ℕ)
      (session : Str) (h : CommHelper D)
      → Ensures
          (λ (h' : CommHelper D). executor_messages h'.sent ≡ executor_messages h.sent)
          (forward_func_call z client app names argss flag session h)
  unfolding forward_func_call executor_messages
  executor_messages-forward_func_call z client app names argss flag session h =
      Ensures-bind (λ (r : List (FunctionRequest D) × CommHelper D). r.1.sent ≡ h.sent)
        (λ (h' : CommHelper D). executor_messages h'.sent ≡ executor_messages h.sent)
        (forward_requests z flag names argss h) _ (forward_requests-sent names z flag argss h)
        (λ r e.
          Ensures-bind_any
            (λ (h' : CommHelper D). executor_messages h'.sent ≡ executor_messages h.sent)
            (lookup app h.app_coord_map) _
            (λ ht.
              rw (executor_messages-append r.1.sent _, append-nil (executor_messages r.1.sent), e)))

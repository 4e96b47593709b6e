-- ===== src/Executor/Exchange.antt =====
-- pheromone/include/executor/function_lib.hpp and pheromone/src/scheduler/scheduler_server.cpp: what a
-- function gets and sends through its library, and what the scheduler makes of it.
use native.Mathlib.Nat.{mod-eq_of_lt}
use demeter.Prelude.{
  lt→ltb, length, take, take-append_length, lookup, Str, nat_eq, str_eq, eq_refl, ℕ, ◌+◌, ◌-◌, ◌%◌,
  ◌≤◌, ◌<◌, ◌≡◌, refl, sym, ap, ◌∙◌, true, some, [], ◌∷◌, arith,
}
use mathlib.Core.List.{append-nil}
use demeter.Coordinator.{to_string}
use demeter.Coordinator.Apps.Decimal.{stoi-to_string, to_string-IsNumeral}
use demeter.Trigger.ByTime.{TimePoint}
use demeter.Scheduler.{Scheduler, Env, on_helper, emit, to_executor}
use demeter.Scheduler.Calls.{send_to_executer}
use demeter.Scheduler.Executors.{generic_response, get_object, get_request, handle_executor}
use demeter.Executor.{wanted_name, UserLibrary, EpheObject, object_of_response}
use demeter.Executor
use demeter.Executor.Calls.Received.{c_string_self}

-- The library of an executor that the scheduler has a channel to.
abbrev pub IsLinked : ℕ → UserLibrary → Type 0
IsLinked executor_count l = (0 < l.chan_id) × (l.chan_id < 256) × (l.chan_id ≤ executor_count)

pub linked_id : (id : ℕ) → 0 < id → id < 256 → (id + 255) % 256 ≡ id - 1
linked_id id positive small = omega arith

take-length : (s : Str) → take (length s) s ≡ s
take-length s = ap (take (length s)) (sym (append-nil s)) ∙ take-append_length s []

object_of_response-generic_response :
    (name : Str) (req_id size : ℕ)
    → size < 0x80000000
    → object_of_response name req_id (some (generic_response req_id (to_string size)))
      ≡ some (some (record { obj_name = name; size = size; target_func = [] }))
unfolding object_of_response
object_of_response-generic_response name req_id size small =
    let (d, t, e, digit, text, undelimited) = to_string-IsNumeral size in
    rw (eq_refl req_id, c_string_self (to_string size) text, stoi-to_string size small) refl

module _ {B D : Type 0} (env : Env B D) where
  get_object-here :
      (id req_id size : ℕ) (name : Str) (s : Scheduler D)
      → id < env.executor_count
      → lookup name s.key_len_map ≡ some size
      → get_object env id req_id name s
        ≡ some (
            on_helper (emit (to_executor id (generic_response req_id (to_string size))) s.helper) s)
  unfolding get_object send_to_executer
  get_object-here id req_id size name s linked here =
      rw (get_object, here, lt→ltb id env.executor_count linked) refl

  get_request-named :
      (id req_id : ℕ) (name : Str) (s : Scheduler D)
      → length name < 256
      → get_request env id (1 ∷ req_id ∷ length name % 256 ∷ name) s
        ≡ get_object env id req_id name s
  unfolding get_request
  get_request-named id req_id name s short =
      rw (mod-eq_of_lt short, take-length name) (ground arith)

  -- A function that gets an object of the ephemeral store which the scheduler has recorded is answered
  -- at once and finds the object under its name with the recorded size. The executor has a channel, the
  -- name has fewer than 256 bytes, and the size is an `int`.
  pub get_object-handle_executor :
      (now : TimePoint) (bucket key : Str) (size : ℕ) (l : UserLibrary) (s : Scheduler D)
      → IsLinked env.executor_count l
      → length (wanted_name bucket key true l) < 256
      → size < 0x80000000
      → lookup (wanted_name bucket key true l) s.key_len_map ≡ some size
      → (answer : Str) × (handle_executor env now (Executor.get_object bucket key true l).0 s
          ≡ some (on_helper (emit (to_executor (l.chan_id - 1) answer) s.helper) s))
        × (object_of_response
              (wanted_name bucket key true l)
              (Executor.get_object bucket key true l).1.rid
              (some answer)
            ≡ some (
                some (record {
                  obj_name = wanted_name bucket key true l;
                  size = size;
                  target_func = [];
                })))
  unfolding Executor.get_object handle_executor
  get_object-handle_executor now bucket key size l s linked short small here =
      let req_id = (Executor.next_request_id l).0 in
      let name = wanted_name bucket key true l in
      let id = l.chan_id - 1 in
      (
        generic_response req_id (to_string size),
        rw (linked_id l.chan_id linked.0 linked.1) (
            get_request-named id req_id name s short
            ∙ get_object-here id req_id size name s (omega (arith, linked)) here),
        unfold Executor.next_request_id in
            object_of_response-generic_response name req_id size small,
      )

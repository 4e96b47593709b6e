-- ===== src/Executor/Tests.antt =====
-- A concrete call and a concrete object, for the theorems on executors.
use demeter.Prelude.{
  contains, lookup, Str, bytes, str_eqb, nat_eq, str_eq, ℕ, ◌≡◌, refl, true, false, some, List, [],
  ◌∷◌, ◌++◌, arith,
}
use demeter.Names.{get_local_object_name, split}
use demeter.Scheduler.Calls.{call_message, resource_meta}
use demeter.Scheduler.{Scheduler, on_helper, emit, to_executor}
use demeter.Scheduler.Executors.{handle_executor}
use demeter.Scheduler.Sends.{send_ephemeral}
use demeter.Scheduler.Tests.{env, worker}
use demeter.Executor.{
  UserLibrary, EpheObject, wanted_name, create_in_bucket, object_of_response, get_object,
  send_object, new_library,
}
use demeter.Executor.Exchange.{get_object-handle_executor}
use demeter.Executor.Sending.{IsPlain, packing_flag, received, send_object-handle_executor}
use demeter.Executor.Calls.{parse_call}
use demeter.Executor.Calls.Received.{IsText, AreArgs, parse_call-call_message}

abbrev session : Str
session = bytes "0123456789abcdef"

abbrev args : List Str
args = bytes "100x100" ∷ [] ∷ bytes "png" ∷ []

session-IsText : IsText session
unfolding contains
session-IsText = (refl, refl)

args-AreArgs : AreArgs (bytes "resize") args
unfolding contains
args-AreArgs = ((refl, refl), ((refl, refl), ((refl, refl), ((refl, refl), refl))))

parse_call-call_message_example :
    parse_call (call_message [] session (bytes "resize") args 0 (resource_meta (bytes "1.0") 128))
    ≡ some (record {
      arg_flag = 0;
      persist_output_flag = 1;
      resource_parts = split (resource_meta (bytes "1.0") 128) b',';
      session_id = session;
      func_name = bytes "resize";
      func_args = args;
    })
unfolding str_eqb
parse_call-call_message_example =
    parse_call-call_message [] session (bytes "resize") args 0 (bytes "1.0") 128 session-IsText
      args-AreArgs

abbrev library : UserLibrary
library = record (new_library (bytes "10.0.0.1") 0) {
  function = bytes "resize";
  session_id = session;
}

abbrev picture : EpheObject
picture = create_in_bucket (bytes "pics") (bytes "cat") 6 library

-- The picture is on the node.
abbrev stored_worker : Scheduler ℕ
stored_worker = record worker {
  key_len_map = (wanted_name (bytes "pics") (bytes "cat") true library, 6) ∷ [];
}

get_object-handle_executor_example :
    (answer : Str) × (handle_executor env 0
        (get_object (bytes "pics") (bytes "cat") true library).0
        stored_worker
      ≡ some (on_helper (emit (to_executor 0 answer) stored_worker.helper) stored_worker))
    × (object_of_response
          (wanted_name (bytes "pics") (bytes "cat") true library)
          (get_object (bytes "pics") (bytes "cat") true library).1.rid
          (some answer)
        ≡ some (
            some (record {
              obj_name = wanted_name (bytes "pics") (bytes "cat") true library;
              size = 6;
              target_func = [];
            })))
unfolding new_library
get_object-handle_executor_example =
    get_object-handle_executor env 0 (bytes "pics") (bytes "cat") 6 library stored_worker
      (omega arith, omega arith, omega arith) (unfold get_local_object_name in omega arith)
      (omega arith) (unfold lookup str_eqb get_local_object_name in refl)

picture-IsPlain : IsPlain library picture (bytes "pics") (bytes "cat" ++ session) (bytes "pixels")
unfolding contains create_in_bucket get_local_object_name
picture-IsPlain = record {
  named = refl;
  session_text = (refl, refl);
  function_text = (refl, refl);
  target_text = (refl, refl);
  bucket_text = (refl, refl);
  key_text = (refl, refl);
  content_text = (refl, refl);
  full = refl;
}

send_object-handle_executor_example :
    handle_executor env 0 (send_object picture (bytes "pixels") false library).0 worker
    ≡ send_ephemeral env 0
        (packing_flag picture)
        (received library picture (bytes "pics") (bytes "cat" ++ session) (bytes "pixels"))
        worker
unfolding new_library
send_object-handle_executor_example =
    send_object-handle_executor env 0 (bytes "pics") (bytes "cat" ++ session) (bytes "pixels")
      picture false library worker (omega arith, omega arith, omega arith) picture-IsPlain

-- ===== src/Executor/Calls.antt =====
-- pheromone/src/executor/executor_server.cpp: an executor receives calls from its scheduler, runs
-- them one at a time, and reports when it is busy and when it is available.
pub mod Received
use demeter.Prelude.{
  ltb, if◌then◌else◌, ◌>>=◌, contains, add, length, take, drop, ℤ, ◌==◌, Str, nat_eq, str_eq, pos,
  negsuc, ℕ, ◌+◌, ◌-◌, ◌%◌, ◌^◌, Bool, true, false, not, ◌||◌, Option, none, some, List, [], ◌∷◌,
  ◌++◌, map,
}
use demeter.Names.{split, delimiter}
use demeter.Coordinator.Apps.{stoi}
use demeter.Scheduler.Sends.{c_string}
use demeter.Executor.{UserLibrary, clear_session, add_arg_size}

-- An argument of a function: a value, or an object of shared memory with its size.
pub data ArgValue : Type 0 where
  value : Str → ArgValue
  shared : Str → ℤ → ArgValue

-- A call that has been read.
pub record Invocation : Type 0 where
  pub arg_flag : ℕ
  pub persist_output_flag : ℕ
  pub resource_parts : List Str
  pub session_id : Str
  pub func_name : Str
  pub func_args : List Str

-- "we add 1 to avoid \0 in string"; 6 is busy, 7 is available
unfoldable pub status_message : ℕ → Bool → Str
status_message thread_id busy_flag = (thread_id + 1) % 256 ∷ (if busy_flag then 6 else 7) ∷ []

-- The session and the function, and what follows; without them `func_with_args[0]` does not exist.
abbrev pub invocation_of : ℕ → ℕ → Str → List Str → Option Invocation
invocation_of arg_flag persist meta (session_id ∷ func_name ∷ func_args) = some (record {
  arg_flag = arg_flag;
  persist_output_flag = persist;
  resource_parts = split meta b',';
  session_id = session_id;
  func_name = func_name;
  func_args = func_args;
})
invocation_of arg_flag persist meta parts = none

-- A message whose first byte is 1.
unfoldable pub parse_call : Str → Option Invocation
unfolding c_string
parse_call (kind ∷ flag ∷ persist ∷ meta_len ∷ rest) =
    if ltb (length rest) meta_len
    then none
    else invocation_of ((flag + 255) % 256) persist (take meta_len rest)
        (split (c_string (drop meta_len rest)) delimiter)
parse_call message = none

-- The arguments in steps of three: bucket, key and size.
unfoldable pub shared_args : ℕ → List Str → Option (List ArgValue)
shared_args arg_flag [] = some []
shared_args arg_flag (a ∷ b ∷ c ∷ args) = do
  size ← stoi c
  rest ← shared_args arg_flag args
  let obj = shared (a ++ delimiter ∷ b) size
  some (if arg_flag == 1 then obj ∷ rest else value b ∷ obj ∷ rest)
shared_args arg_flag args = none

-- "can be divided by 3, exclude the function name"
abbrev is_divisible : List Str → Bool
is_divisible args = length args % 3 == 0

-- The values that the function is called with. `none` inside is the error of arguments that cannot
-- be read; with another flag the number of arguments is not initialized.
unfoldable pub arg_values : Invocation → Option (Option (List ArgValue))
unfolding shared_args
arg_values i =
    if i.arg_flag == 0
    then some (some (map value i.func_args))
    else if not (is_divisible i.func_args)
    then some none
    else if i.arg_flag == 1 || i.arg_flag == 2
    then (do args ← shared_args i.arg_flag i.func_args; some (some args))
    else none

unfoldable pub size_of_arg : ArgValue → ℕ
size_of_arg (value s) = length s
size_of_arg (shared name (pos n)) = n
size_of_arg (shared name (negsuc n)) = 2 ^ 64 - n - 1

unfoldable pub add_arg_sizes : List ArgValue → UserLibrary → UserLibrary
unfolding size_of_arg add_arg_size
add_arg_sizes [] l = l
add_arg_sizes (arg ∷ args) l = add_arg_sizes args (add_arg_size (size_of_arg arg) l)

-- `set_function_name`, `set_session_id` and `set_persist_flag`
abbrev pub with_call : Invocation → UserLibrary → UserLibrary
with_call i l = record l {
  function = i.func_name;
  session_id = i.session_id;
  persist_flag = i.persist_output_flag;
}

-- The state of `run`: the library, and the functions that are loaded.
pub record Executor : Type 0 where
  pub thread_id : ℕ
  pub user_lib : UserLibrary
  pub name_func_map : List Str
  pub environment : List Str

-- What a message leads to: the state, the messages to the scheduler, and the function that is
-- called, with the library that it is given and its arguments.
pub record Handled : Type 0 where
  pub executor : Executor
  pub sent : List Str
  pub called : Option (Str × UserLibrary × List ArgValue)

-- `load_function` of a function that is not loaded: the library's file is a parameter.
abbrev pub is_loaded : (Str → Bool) → List Str → Str → Bool
is_loaded load loaded func_name = contains loaded func_name || load func_name

-- "DEMETER_CPU_CORES" and "DEMETER_MEMORY_MB" are set from two parts.
abbrev pub set_environment : List Str → List Str → List Str
set_environment (cores ∷ memory ∷ []) old = cores ∷ memory ∷ []
set_environment parts old = old

-- A function that runs, with a library whose session is cleared afterwards. `effect` is what the
-- user's function does to the library.
unfoldable pub execute :
    (Invocation → UserLibrary → UserLibrary)
    → Executor
    → Invocation
    → Option (List ArgValue)
    → Handled
unfolding add_arg_sizes clear_session
execute effect e i none = record {
  executor = record e { user_lib = with_call i e.user_lib };
  sent = status_message e.thread_id true ∷ status_message e.thread_id false ∷ [];
  called = none;
}
execute effect e i (some args) =
    let l = add_arg_sizes args (with_call i e.user_lib) in
    record {
      executor = record e { user_lib = clear_session (effect i l) };
      sent = status_message e.thread_id true ∷ status_message e.thread_id false ∷ [];
      called = some (i.func_name, l, args);
    }

unfoldable pub handle_invocation :
    (Str → Bool) → (Invocation → UserLibrary → UserLibrary) → Executor → Invocation → Option Handled
unfolding arg_values execute
handle_invocation load effect e i =
    let ready = record e {
      environment = set_environment i.resource_parts e.environment;
      name_func_map =
          if is_loaded load e.name_func_map i.func_name
          then add i.func_name e.name_func_map
          else e.name_func_map;
    } in
    if is_loaded load e.name_func_map i.func_name
    then (do args ← arg_values i; some (execute effect ready i args))
    else some (execute effect ready i none)

-- A message of the scheduler; one that is not a call is passed over.
unfoldable pub handle_message :
    (Str → Bool) → (Invocation → UserLibrary → UserLibrary) → Executor → Str → Option Handled
unfolding parse_call handle_invocation
handle_message load effect e message =
    let received = (do i ← parse_call message; handle_invocation load effect e i) in
    let passed = some (record { executor = e; sent = []; called = none }) in
    elim message [ [] ↦ passed | kind ∷ rest ↦ if kind == 1 then received else passed ]

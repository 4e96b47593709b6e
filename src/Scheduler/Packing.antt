-- ===== src/Scheduler/Packing.antt =====
-- pheromone/src/scheduler/scheduler_server.cpp, `forward_call_via_helper`: a call that goes to the
-- coordinator takes its arguments with it, as names of objects or as their contents.
use demeter.Prelude.{
  ltb, if◌then◌else◌, ◌>>=◌, get_elem?, ℤ, Map, is_some, or_default, lookup, update, ◌==◌, Str,
  nat_eq, str_eq, pos, negsuc, ℕ, ◌+◌, ◌-◌, ◌%◌, Option, none, some, List, [], ◌∷◌, ◌++◌,
}
use demeter.Names.{find_byte, split, delimiter}
use demeter.Coordinator.Apps.{stoi}
use demeter.Scheduler.{Scheduler, Env, on_helper}
use demeter.Scheduler.Forward.{forward_func_call}

-- An `int` as the `unsigned` that it is compared with.
abbrev u32_of : ℤ → ℕ
u32_of (pos n) = n
u32_of (negsuc n) = 0x100000000 - n - 1

-- The sizes, at every third argument; `none` is an exception or an access past the end.
unfoldable pub args_size : List Str → Option ℕ
args_size [] = some 0
args_size (a ∷ b ∷ c ∷ args) = do
  size ← stoi c
  rest ← args_size args
  some ((u32_of size + rest) % 0x100000000)
args_size args = none

unfoldable pub total_data_size : List (List Str) → Option ℕ
unfolding args_size
total_data_size [] = some 0
total_data_size (args ∷ argss) = do
  size ← args_size args
  rest ← total_data_size argss
  some ((size + rest) % 0x100000000)

-- The objects that the arguments name, read from shared memory, and the entries of `key_len_map`
-- that reading a size creates.
unfoldable pub real_args :
    (Str → ℕ → Str) → ℕ → List Str → Map Str ℕ → Option (List Str × Map Str ℕ)
real_args shm arg_flag [] lens = some ([], lens)
real_args shm arg_flag (a ∷ b ∷ c ∷ args) lens = do
  let key_name = a ++ delimiter ∷ b
  let real_data = shm key_name (or_default 0 (lookup key_name lens))
  (rest, lens') ← real_args shm arg_flag args (update key_name 0 (λ n. n) lens)
  some (
    if arg_flag == 1
        then real_data ∷ rest
        else if arg_flag == 2
        then b ∷ real_data ∷ rest
        else rest,
    lens',
  )
real_args shm arg_flag args lens = none

unfoldable pub real_argss :
    (Str → ℕ → Str) → ℕ → List (List Str) → Map Str ℕ → Option (List (List Str) × Map Str ℕ)
unfolding real_args
real_argss shm arg_flag [] lens = some ([], lens)
real_argss shm arg_flag (args ∷ argss) lens = do
  (data_args, lens') ← real_args shm arg_flag args lens
  (rest, lens'') ← real_argss shm arg_flag argss lens'
  some (data_args ∷ rest, lens'')

-- An argument that is an object's name is split into the bucket and the key.
unfoldable pub flatten_args : List Str → List Str
flatten_args [] = []
flatten_args (arg ∷ args) =
    if is_some (find_byte delimiter arg)
    then split arg delimiter ++ flatten_args args
    else arg ∷ flatten_args args

-- The flattened arguments where the first is an object's name.
unfoldable pub flatten : ℕ → List Str → Option (List Str)
unfolding flatten_args
flatten arg_flag args =
    if ltb 0 arg_flag
    then (do
      first ← get_elem? args 0
      some (if is_some (find_byte delimiter first) then flatten_args args else args))
    else some args

abbrev pub forward_data_packing_threshold : ℕ
forward_data_packing_threshold = 10240

module _ {B D : Type 0} (env : Env B D) where
  -- A call whose arguments are keys: the objects themselves are sent where they are small.
  unfoldable pub forward_keys :
      Str → Str → Str → List Str → List (List Str) → ℕ → ℕ → Scheduler D → Option (Scheduler D)
  unfolding real_argss
  forward_keys client session_id app_name names argss arg_flag size s =
      let packed = real_argss env.shm arg_flag argss s.key_len_map in
      if ltb size forward_data_packing_threshold
      then (do
        (data_argss, lens) ← packed
        h ← forward_func_call env.zero_cores client app_name names data_argss 0 session_id s.helper
        some (record s { helper = h; key_len_map = lens }))
      else (do
        h ←
            forward_func_call env.zero_cores client app_name names argss arg_flag session_id
              s.helper
        some (on_helper h s))

  unfoldable pub forward_call_via_helper :
      Str → Str → List Str → List (List Str) → ℕ → Scheduler D → Option (Scheduler D)
  unfolding total_data_size forward_keys
  forward_call_via_helper session_id app_name names argss arg_flag s =
      let client = or_default [] (lookup session_id s.session_client_addr_map) in
      if ltb 0 arg_flag
      then (do
        size ← total_data_size argss
        forward_keys client session_id app_name names argss arg_flag size s)
      else (do
        h ←
            forward_func_call env.zero_cores client app_name names argss arg_flag session_id
              s.helper
        some (on_helper h s))

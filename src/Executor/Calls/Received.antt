-- ===== src/Executor/Calls/Received.antt =====
-- pheromone/src/executor/executor_server.cpp and pheromone/src/scheduler/scheduler_server.cpp: what an
-- executor reads is what the scheduler sent.
use native.Mathlib.Nat.{mod-eq_of_lt}
use mathlib.Core.List.{append_assoc}
use demeter.Prelude.{
  ltb, if◌then◌else◌, Bool-cases, contains, length, is_nil, length-append, take-append_length,
  drop-append_length, ◌==◌, Str, nat_eq, str_eq, ℕ, ◌%◌, ◌<◌, ◌≡◌, refl, ap, ◌∙◌, inl, inr, false,
  ◌||◌, some, List, [], ◌∷◌, ◌++◌, arith,
}
use demeter.Names.{split, delimiter}
use demeter.Scheduler.Sends.{c_string}
use demeter.Coordinator.{to_string}
use demeter.Scheduler.Calls.{join_args, call_message, resource_meta}
use demeter.Executor.Calls.{parse_call}

-- Neither the delimiter nor the end of a C string.
abbrev pub IsText : Str → Type 0
IsText s = (contains s delimiter ≡ false) × (contains s 0 ≡ false)

-- The pieces are text, and the last is not empty.
abbrev pub AreArgs : Str → List Str → Type 0
AreArgs s [] = IsText s × (is_nil s ≡ false)
AreArgs s (arg ∷ args) = IsText s × AreArgs arg args

split-append_piece :
    (s t : Str)
    → contains s delimiter ≡ false
    → split (s ++ delimiter ∷ t) delimiter ≡ s ∷ split t delimiter
unfolding split contains
split-append_piece [] t h = ground arith
split-append_piece (x ∷ s) t h = ground (arith, split-append_piece s t)

split-last :
    (s : Str) → contains s delimiter ≡ false → is_nil s ≡ false → split s delimiter ≡ s ∷ []
unfolding split contains
split-last [] h n = absurd (ground (arith, n))
split-last (x ∷ []) h n = ground (arith, h)
split-last (x ∷ y ∷ s) h n = ground (arith, h, split-last (y ∷ s))

join_args-append : (args : List Str) (x y : Str) → join_args (x ++ y) args ≡ x ++ join_args y args
unfolding join_args
join_args-append [] x y = refl
join_args-append (arg ∷ args) x y =
    rw (append_assoc x y (delimiter ∷ arg)) (join_args-append args x (y ++ delimiter ∷ arg))

pub join_args-cons :
    (args : List Str) (func arg : Str)
    → join_args (func ++ delimiter ∷ arg) args ≡ func ++ delimiter ∷ join_args arg args
join_args-cons args func arg =
    join_args-append args func (delimiter ∷ arg)
    ∙ ap (λ t. func ++ t) (join_args-append args (delimiter ∷ []) arg)

split-join_args :
    (args : List Str) (func : Str)
    → AreArgs func args
    → split (join_args func args) delimiter ≡ func ∷ args
unfolding join_args
split-join_args [] func h = split-last func h.0.0 h.1
split-join_args (arg ∷ args) func h =
    rw (join_args-cons args func arg, split-append_piece func (join_args arg args) h.0.0)
      (ap (◌∷◌ func) (split-join_args args arg h.1))

contains-append : (xs ys : Str) (c : ℕ) → contains (xs ++ ys) c ≡ (contains xs c || contains ys c)
unfolding contains
contains-append [] ys c = refl
contains-append (x ∷ xs) ys c = ground (arith, contains-append xs ys c)

pub c_string_self : (s : Str) → contains s 0 ≡ false → c_string s ≡ s
unfolding c_string contains
c_string_self [] h = refl
c_string_self (x ∷ s) h = ground (arith, h, c_string_self s)

join_args-no_zero :
    (args : List Str) (func : Str) → AreArgs func args → contains (join_args func args) 0 ≡ false
unfolding join_args contains
join_args-no_zero [] func h = h.0.1
join_args-no_zero (arg ∷ args) func h = rw (join_args-cons args func arg) (
    ground (
      arith,
      contains-append func (delimiter ∷ join_args arg args) 0,
      join_args-no_zero args arg h.1,
      h.0.1,
    ))

resource_meta-lt : (cores : Str) (memory_mb : ℕ) → length (resource_meta cores memory_mb) < 256
resource_meta-lt cores memory_mb =
    elim (Bool-cases (ltb 255 (length (cores ++ b',' ∷ to_string memory_mb)))) [
      | inl long ↦ rw long (omega arith)
      | inr short ↦ rw short (ground (arith, short))
    ]

long_enough : (meta rest : Str) → ltb (length (meta ++ rest)) (length meta) ≡ false
long_enough meta rest = ground (arith, length-append meta rest)

pub split-c_string :
    (session func : Str) (args : List Str)
    → IsText session
    → AreArgs func args
    → split (c_string (session ++ delimiter ∷ join_args func args)) delimiter
      ≡ session ∷ func ∷ args
unfolding contains
split-c_string session func args s h =
    rw
      (
        c_string_self (session ++ delimiter ∷ join_args func args) (
            ground (
              arith,
              contains-append session (delimiter ∷ join_args func args) 0,
              join_args-no_zero args func h,
              s.1,
            )),
        split-append_piece session (join_args func args) s.0,
      )
      (ap (◌∷◌ session) (split-join_args args func h))

-- An executor reads from the message of a call the session, the function, the arguments, the flag
-- and the resources that the scheduler put into it. The session, the function and the arguments have
-- neither a delimiter nor a zero byte, and the last of the function and its arguments is not empty.
pub parse_call-call_message :
    (client session func : Str) (args : List Str) (flag : ℕ) (cores : Str) (memory_mb : ℕ)
    → IsText session
    → AreArgs func args
    → parse_call (call_message client session func args flag (resource_meta cores memory_mb))
      ≡ some (record {
        arg_flag = flag % 256;
        persist_output_flag = if client == [] then 1 else 2;
        resource_parts = split (resource_meta cores memory_mb) b',';
        session_id = session;
        func_name = func;
        func_args = args;
      })
unfolding parse_call call_message
parse_call-call_message client session func args flag cores memory_mb s h =
    let meta = resource_meta cores memory_mb in
    let rest = session ++ delimiter ∷ join_args func args in
    rw
      (
        mod-eq_of_lt (resource_meta-lt cores memory_mb),
        long_enough meta rest,
        take-append_length meta rest,
        drop-append_length meta rest,
        split-c_string session func args s h,
      )
      (ap
        (λ f. some (record {
          arg_flag = f;
          persist_output_flag = if client == [] then 1 else 2;
          resource_parts = split meta b',';
          session_id = session;
          func_name = func;
          func_args = args;
        }))
        (omega arith))

-- ===== src/Scheduler/Responses/Request.antt =====
-- pheromone/src/scheduler/scheduler_server.cpp, the loop over the arguments of a call: those that are
-- not on this node are entered in both maps.
use demeter.Prelude.{
  nat_eqb, if◌then◌else◌, Bool-cases, Ensures, Ensures-bind_any, Ensures-map, contains, add,
  IsSetList, contains-add, add-IsSetList, Map, is_some, or_default, lookup, update, lookup-update,
  ◌==◌, Str, str_eqb_iff, nat_eq, str_eq, ℕ, ◌≡◌, refl, sym, ap, ◌∙◌, inl, inr, Bool, true, false,
  not, ◌&&◌, ◌||◌, some, List, [], ◌∷◌, arith,
}
use demeter.Scheduler.{CommHelper, Scheduler, Env}
use demeter.Scheduler.Comm.{send_data_req}
use demeter.Scheduler.Responses.{with_key, await_args}
use demeter.Scheduler.Responses.Index.{listed, listed-with_key}

-- A key among the arguments that is not here.
unfoldable pub missing : Map Str ℕ → List Str → Str → Bool
missing lens args key = contains args key && not (is_some (lookup key lens))

missing-here :
    (lens : Map Str ℕ) (arg : Str) (args : List Str) (key : Str)
    → is_some (lookup arg lens) ≡ true
    → missing lens (arg ∷ args) key ≡ missing lens args key
unfolding missing contains
missing-here lens arg args key here = ground (
  arith,
  here,
  λ (e : arg ≡ key). sym here ∙ ap (λ k. is_some (lookup k lens)) e,
  str_eqb_iff arg key,
)

missing-absent :
    (lens : Map Str ℕ) (arg : Str) (args : List Str) (key : Str)
    → is_some (lookup arg lens) ≡ false
    → missing lens (arg ∷ args) key ≡ (arg == key || missing lens args key)
unfolding missing contains
missing-absent lens arg args key absent = ground (
  arith,
  absent,
  λ (e : arg ≡ key). sym absent ∙ ap (λ k. is_some (lookup k lens)) e,
  str_eqb_iff arg key,
)

add-IsSetList_at :
    (key : Str) (cid : ℕ) (m : Map Str (List ℕ))
    → ((other : Str) → IsSetList (or_default [] (lookup other m)))
    → (other : Str) → IsSetList (or_default [] (lookup other (update key [] (add cid) m)))
add-IsSetList_at key cid m h other = elim (Bool-cases (key == other)) [
  | inl hit ↦
      rw (lookup-update key other [] (add cid) m, hit)
        (add-IsSetList cid (or_default [] (lookup key m)) (h key))
  | inr miss ↦ rw (lookup-update key other [] (add cid) m, miss) (h other)
]

module _ {D : Type 0} where
  -- The state after some of the arguments were looked at.
  pub record Asked (args inflight : List Str) (s : Scheduler D) (r : List Str × Scheduler D)
      : Type 0 where
    pub found :
        (key : Str) → contains r.0 key ≡ (contains inflight key || missing s.key_len_map args key)
    pub index :
        (key : Str) (i : ℕ)
        → listed r.1.waiting key i
          ≡ (listed s.waiting key i || (nat_eqb s.call_id i && missing s.key_len_map args key))
    pub calls : r.1.waiting.call_id_inflight_args_map ≡ s.waiting.call_id_inflight_args_map
    pub id_kept : r.1.call_id ≡ s.call_id
    pub sets :
        ((key : Str) → IsSetList (or_default [] (lookup key s.waiting.key_call_id_map)))
        → (key : Str) → IsSetList (or_default [] (lookup key r.1.waiting.key_call_id_map))

  Asked-nil : (inflight : List Str) (s : Scheduler D) → Asked [] inflight s (inflight, s)
  unfolding missing contains
  Asked-nil inflight s = record {
    found = λ key. ground arith;
    index = λ key i. ground arith;
    calls = refl;
    id_kept = refl;
    sets = λ h. h;
  }

  Asked-here :
      (arg : Str) (args inflight : List Str) (s : Scheduler D) (r : List Str × Scheduler D)
      → is_some (lookup arg s.key_len_map) ≡ true
      → Asked args inflight s r
      → Asked (arg ∷ args) inflight s r
  Asked-here arg args inflight s r here a = record {
    found = λ key. ground (arith, a.found key, missing-here s.key_len_map arg args key here);
    index = λ key i. ground (arith, a.index key i, missing-here s.key_len_map arg args key here);
    calls = a.calls;
    id_kept = a.id_kept;
    sets = a.sets;
  }

  -- The state in which an argument that is not here has been asked for.
  abbrev asked : Str → CommHelper D → Scheduler D → Scheduler D
  asked arg h s = record s { helper = h; waiting = with_key arg s.call_id s.waiting }

  Asked-absent :
      (arg : Str) (args inflight : List Str) (h : CommHelper D) (s : Scheduler D)
      (r : List Str × Scheduler D)
      → is_some (lookup arg s.key_len_map) ≡ false
      → Asked args (add arg inflight) (asked arg h s) r
      → Asked (arg ∷ args) inflight s r
  Asked-absent arg args inflight h s r absent a = record {
    found = λ key. ground (
      arith,
      a.found key,
      contains-add arg key inflight,
      missing-absent s.key_len_map arg args key absent,
    );
    index = λ key i. ground (
      arith,
      a.index key i,
      listed-with_key arg s.call_id s.waiting key i,
      missing-absent s.key_len_map arg args key absent,
    );
    calls = a.calls;
    id_kept = a.id_kept;
    sets = λ k. a.sets (add-IsSetList_at arg s.call_id s.waiting.key_call_id_map k);
  }

module _ {B D : Type 0} (env : Env B D) where
  pub await_args-Asked :
      (args inflight : List Str) (s : Scheduler D)
      → Ensures (Asked args inflight s) (await_args env args inflight s)
  unfolding await_args
  await_args-Asked [] inflight s = Asked-nil inflight s
  await_args-Asked (arg ∷ args) inflight s =
      elim (Bool-cases (is_some (lookup arg s.key_len_map))) [
        | inl here ↦ rw here (
            Ensures-map (Asked args inflight s) (Asked (arg ∷ args) inflight s)
              (λ r. Asked-here arg args inflight s r here) (await_args env args inflight s)
              (await_args-Asked args inflight s))
        | inr absent ↦ rw absent (
            Ensures-bind_any (Asked (arg ∷ args) inflight s)
              (if is_some (lookup arg s.waiting.key_call_id_map)
                then some s.helper
                else send_data_req arg s.helper)
              _
              (λ h.
                Ensures-map (Asked args (add arg inflight) (asked arg h s))
                  (Asked (arg ∷ args) inflight s) (λ r. Asked-absent arg args inflight h s r absent)
                  (await_args env args (add arg inflight) (asked arg h s))
                  (await_args-Asked args (add arg inflight) (asked arg h s))))
      ]

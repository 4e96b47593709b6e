-- ===== src/Scheduler/Responses/Arrive.antt =====
-- pheromone/src/scheduler/scheduler_server.cpp, the branch of a data response: the calls that await
-- an object are those of the two maps, and await it no longer once it is here.
use mathlib.Core.Path.{fun_ext}
use demeter.Prelude.{
  Bool-cases, Ensures, Ensures-bind, Ensures-bind_any, contains, IsSetList, Map, or_default, lookup,
  insert, erase, lookup-erase, ◌==◌, Str, str_eqb_iff, nat_eq, str_eq, ℕ, ◌%◌, ◌≡◌, refl, sym, ap,
  subst, ◌∙◌, inl, inr, Option, none, some, List, [], ◌∷◌, arith,
}
use demeter.Trigger.ByTime.{TimePoint}
use demeter.Scheduler.{Waiting, Scheduler, Env}
use demeter.Scheduler.Responses.{
  without_key, resolve_calls, resolve_waiting, resolve_listed, answer_waiting, handle_data_resp,
}
use demeter.Scheduler.Responses.Resolve.{Resolved, resolve_calls-Resolved}
use demeter.Scheduler.Responses.Index.{awaits, listed, IsIndexed, arrive, listed-without_key}

erased-IsSetList :
    (key other : Str) (m : Map Str (List ℕ))
    → IsSetList (or_default [] (lookup other m))
    → IsSetList (or_default [] (lookup other (erase key m)))
erased-IsSetList key other m h = elim (Bool-cases (key == other)) [
  | inl hit ↦ rw (lookup-erase key other m, hit) tt
  | inr miss ↦ rw (lookup-erase key other m, miss) h
]

module _ {D : Type 0} where
  -- The arrival, in both maps.
  pub record Arrived (key : Str) (w w' : Waiting D) : Type 0 where
    pub relation : awaits w' ≡ arrive key (awaits w)
    pub indexed : IsIndexed w'

  listed-found :
      (key : Str) (cids : List ℕ) (w : Waiting D) (i : ℕ)
      → lookup key w.key_call_id_map ≡ some cids
      → listed w key i ≡ contains cids i
  unfolding listed
  listed-found key cids w i found = rw found refl

  arrive-Resolved :
      (key : Str) (cids : List ℕ) (w w' : Waiting D)
      → IsIndexed w
      → lookup key w.key_call_id_map ≡ some cids
      → Resolved key cids w w'
      → (other : Str) (i : ℕ) → awaits w' other i ≡ arrive key (awaits w) other i
  unfolding arrive
  arrive-Resolved key cids w w' ix found r other i = ground (
    arith,
    str_eqb_iff key other,
    r.calls other i,
    ix.agree other i,
    ix.agree key i,
    listed-found key cids w i found,
  )

  awaits-without_key :
      (key : Str) (w : Waiting D) (other : Str) (i : ℕ)
      → awaits (without_key key w) other i ≡ awaits w other i
  unfolding awaits
  awaits-without_key key w other i = refl

  listed_eq :
      (w w' : Waiting D)
      → w'.key_call_id_map ≡ w.key_call_id_map
      → (key : Str) (cid : ℕ) → listed w' key cid ≡ listed w key cid
  unfolding listed
  listed_eq w w' e key cid = ap (λ m. contains (or_default [] (lookup key m)) cid) e

  without_key-Arrived :
      (key : Str) (cids : List ℕ) (w w' : Waiting D)
      → IsIndexed w
      → lookup key w.key_call_id_map ≡ some cids
      → Resolved key cids w w'
      → Arrived key w (without_key key w')
  unfolding arrive
  without_key-Arrived key cids w w' ix found r = record {
    relation = fun_ext λ other.
        fun_ext
          λ i. awaits-without_key key w' other i ∙ arrive-Resolved key cids w w' ix found r other i;
    indexed = record {
      agree = λ other i. ground (
        arith,
        listed-without_key key w' other i,
        listed_eq w w' r.keys other i,
        ix.agree other i,
        awaits-without_key key w' other i,
        arrive-Resolved key cids w w' ix found r other i,
      );
      sets = λ other.
          erased-IsSetList key other w'.key_call_id_map
            (subst (λ m. IsSetList (or_default [] (lookup other m))) (sym r.keys) (ix.sets other));
    };
  }

  -- An object that nothing waits for leaves the relation as it is.
  unlisted-Arrived :
      (key : Str) (w : Waiting D)
      → IsIndexed w
      → lookup key w.key_call_id_map ≡ none
      → Arrived key w w
  unfolding arrive listed contains
  unlisted-Arrived key w ix missing = record {
    relation = fun_ext λ other. fun_ext λ i. row other i (ix.agree other i);
    indexed = ix;
  }
    where
      row :
          (other : Str) (i : ℕ)
          → listed w other i ≡ awaits w other i
          → awaits w other i ≡ arrive key (awaits w) other i
      row other i e = elim (Bool-cases (key == other)) [
        | inr miss ↦ rw miss refl
        | inl hit ↦ rw hit (
            sym e
            ∙ ap (λ o. contains (or_default [] o) i)
                (ap (λ k. lookup k w.key_call_id_map) (sym ((str_eqb_iff key other).0 hit))
                  ∙ missing))
      ]

module _ {B D : Type 0} (env : Env B D) where
  resolve_listed-Arrived :
      (now : TimePoint) (key : Str) (found : Option (List ℕ)) (s : Scheduler D)
      → IsIndexed s.waiting
      → lookup key s.waiting.key_call_id_map ≡ found
      → Ensures
          (λ (s' : Scheduler D). Arrived key s.waiting s'.waiting)
          (resolve_listed env now key found s)
  unfolding resolve_listed
  resolve_listed-Arrived now key none s ix e = unlisted-Arrived key s.waiting ix e
  resolve_listed-Arrived now key (some cids) s ix e =
      Ensures-bind (λ (s' : Scheduler D). Resolved key cids s.waiting s'.waiting)
        (λ (s' : Scheduler D). Arrived key s.waiting s'.waiting) (resolve_calls env now key cids s)
        _ (resolve_calls-Resolved env cids now key s)
        (λ s' r. without_key-Arrived key cids s.waiting s'.waiting ix e r)

  -- When an object arrives, the two maps of waiting calls do together what the relation between
  -- calls and the objects that they await does: the calls that awaited the object await it no
  -- longer, all else stays, and the maps go on to agree.
  pub handle_data_resp-Arrived :
      (now : TimePoint) (key : Str) (size : ℕ) (s : Scheduler D)
      → IsIndexed s.waiting
      → Ensures
          (λ (s' : Scheduler D). Arrived key s.waiting s'.waiting)
          (handle_data_resp env now key size s)
  unfolding handle_data_resp resolve_waiting
  handle_data_resp-Arrived now key size s ix =
      Ensures-bind_any (λ (s' : Scheduler D). Arrived key s.waiting s'.waiting)
        (answer_waiting env key (size % 256 ∷ []) s.key_remote_get_map s.helper) _
        (λ r.
          resolve_listed-Arrived now key (lookup key s.waiting.key_call_id_map)
            (record s {
              helper = r.1;
              key_remote_get_map = r.0;
              key_len_map = insert key size s.key_len_map;
            })
            ix refl)

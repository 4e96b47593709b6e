-- ===== src/Scheduler/Responses/Requested.antt =====
-- pheromone/src/scheduler/scheduler_server.cpp, the branch of a call: a call whose arguments are keys
-- awaits those that are not on this node.
use mathlib.Core.Path.{fun_ext}
use demeter.Prelude.{
  if◌then◌else◌, nat_eqb_iff, Bool-cases, Ensures, Ensures-bind, Ensures-map, contains, IsSetList,
  is_nil, Map, or_default, lookup, ◌==◌, Str, nat_eq, str_eq, ℕ, ◌≡◌, refl, sym, ap, subst, ◌∙◌,
  inl, inr, true, false, none, List, [], ◌∷◌, arith,
}
use demeter.Trigger.ByTime.{TimePoint}
use demeter.Scheduler.{InflightFuncArgs, Waiting, Scheduler, Env}
use demeter.Scheduler.Responses.{with_args, ready_call, await_args, call_with_keys}
use demeter.Scheduler.Responses.Waits.{SameWaits, ready_call-SameWaits}
use demeter.Scheduler.Responses.Index.{Relation, awaits, listed, IsIndexed, awaits-with_args}
use demeter.Scheduler.Responses.Request.{missing, Asked, await_args-Asked}

-- What a call does to the relation: it awaits the keys that are not here.
unfoldable pub request : ℕ → Map Str ℕ → List Str → Relation → Relation
request cid lens keys r key other = if cid == other then missing lens keys key else r key other

contains-nil : (xs : List Str) (key : Str) → is_nil xs ≡ true → contains xs key ≡ false
unfolding contains
contains-nil [] key h = refl
contains-nil (x ∷ xs) key h = absurd (ground (arith, h))

module _ {D : Type 0} where
  -- What a call does, to both maps.
  pub record Requested (cid : ℕ) (lens : Map Str ℕ) (keys : List Str) (w w' : Waiting D)
      : Type 0 where
    pub relation : awaits w' ≡ request cid lens keys (awaits w)
    pub indexed : IsIndexed w'

  awaits-fresh :
      (w : Waiting D) (key : Str) (cid : ℕ)
      → lookup cid w.call_id_inflight_args_map ≡ none
      → awaits w key cid ≡ false
  unfolding awaits
  awaits-fresh w key cid fresh = rw fresh refl

  awaits_eq :
      (w w' : Waiting D)
      → w'.call_id_inflight_args_map ≡ w.call_id_inflight_args_map
      → (key : Str) (cid : ℕ) → awaits w' key cid ≡ awaits w key cid
  unfolding awaits
  awaits_eq w w' e key cid = rw e refl

  -- Of two maps of which each row is what the call asks for.
  rows-Requested :
      (cid : ℕ) (lens : Map Str ℕ) (keys : List Str) (w w' : Waiting D)
      → ((key : Str) (i : ℕ) → awaits w' key i ≡ request cid lens keys (awaits w) key i)
      → ((key : Str) (i : ℕ) → listed w' key i ≡ request cid lens keys (awaits w) key i)
      → ((key : Str) → IsSetList (or_default [] (lookup key w'.key_call_id_map)))
      → Requested cid lens keys w w'
  rows-Requested cid lens keys w w' a l sets = record {
    relation = fun_ext λ key. fun_ext λ i. a key i;
    indexed = record { agree = λ key i. l key i ∙ sym (a key i); sets = sets };
  }

  -- The rows of the index of keys.
  listed-Asked :
      (keys : List Str) (s : Scheduler D) (r : List Str × Scheduler D)
      → lookup s.call_id s.waiting.call_id_inflight_args_map ≡ none
      → IsIndexed s.waiting
      → Asked keys [] s r
      → (key : Str) (i : ℕ)
      → listed r.1.waiting key i ≡ request s.call_id s.key_len_map keys (awaits s.waiting) key i
  unfolding request
  listed-Asked keys s r fresh ix a key i = ground (
    arith,
    nat_eqb_iff s.call_id i,
    a.index key i,
    ix.agree key i,
    awaits-fresh s.waiting key s.call_id fresh,
  )

  -- Every argument is here.
  all_here-Requested :
      (keys : List Str) (s : Scheduler D) (r : List Str × Scheduler D)
      → lookup s.call_id s.waiting.call_id_inflight_args_map ≡ none
      → IsIndexed s.waiting
      → Asked keys [] s r
      → is_nil r.0 ≡ true
      → Requested s.call_id s.key_len_map keys s.waiting r.1.waiting
  unfolding request contains
  all_here-Requested keys s r fresh ix a nothing =
      rows-Requested s.call_id s.key_len_map keys s.waiting r.1.waiting
        (λ key i. ground (
          arith,
          nat_eqb_iff s.call_id i,
          awaits_eq s.waiting r.1.waiting a.calls key i,
          a.found key,
          contains-nil r.0 key nothing,
          awaits-fresh s.waiting key s.call_id fresh,
        ))
        (listed-Asked keys s r fresh ix a) (a.sets ix.sets)

  -- Some argument is not here.
  waiting-Requested :
      (keys : List Str) (s : Scheduler D) (r : List Str × Scheduler D) (args : InflightFuncArgs D)
      → lookup s.call_id s.waiting.call_id_inflight_args_map ≡ none
      → IsIndexed s.waiting
      → Asked keys [] s r
      → args.inflight_args ≡ r.0
      → Requested s.call_id s.key_len_map keys s.waiting (with_args r.1.call_id args r.1.waiting)
  unfolding request contains listed
  waiting-Requested keys s r args fresh ix a e =
      rows-Requested s.call_id s.key_len_map keys s.waiting (with_args r.1.call_id args r.1.waiting)
        (λ key i. ground (
          arith,
          awaits-with_args r.1.call_id args r.1.waiting key i,
          awaits_eq s.waiting r.1.waiting a.calls key i,
          a.found key,
          a.id_kept,
          ap (λ xs. contains xs key) e,
        ))
        (listed-Asked keys s r fresh ix a) (a.sets ix.sets)

module _ {B D : Type 0} (env : Env B D) where
  -- A call whose arguments are keys awaits, in both maps, exactly those that are not on this node.
  -- What other calls await stays. The call's id must be one that no waiting call has.
  pub call_with_keys-Requested :
      (now : TimePoint) (app : Str) (args : InflightFuncArgs D) (s : Scheduler D)
      → lookup s.call_id s.waiting.call_id_inflight_args_map ≡ none
      → IsIndexed s.waiting
      → Ensures
          (λ (s' : Scheduler D).
            Requested s.call_id s.key_len_map args.key_args s.waiting s'.waiting)
          (call_with_keys env now app args s)
  unfolding call_with_keys
  call_with_keys-Requested now app args s fresh ix =
      Ensures-bind (Asked args.key_args [] s)
        (λ (s' : Scheduler D). Requested s.call_id s.key_len_map args.key_args s.waiting s'.waiting)
        (await_args env args.key_args [] s) _ (await_args-Asked env args.key_args [] s)
        (λ r a. elim (Bool-cases (is_nil r.0)) [
          | inl nothing ↦ rw nothing (
              Ensures-map (SameWaits env r.1)
                (λ (s' : Scheduler D).
                  Requested s.call_id s.key_len_map args.key_args s.waiting s'.waiting)
                (λ s' unmoved.
                  subst (Requested s.call_id s.key_len_map args.key_args s.waiting) (sym unmoved)
                    (all_here-Requested args.key_args s r fresh ix a nothing))
                (ready_call env now app (record args { inflight_args = r.0 }) r.1)
                (ready_call-SameWaits env now app (record args { inflight_args = r.0 }) r.1))
          | inr some_missing ↦ rw some_missing (
              waiting-Requested args.key_args s r (record args { inflight_args = r.0 }) fresh ix a
                refl)
        ])

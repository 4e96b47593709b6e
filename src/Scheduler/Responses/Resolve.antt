-- ===== src/Scheduler/Responses/Resolve.antt =====
-- pheromone/src/scheduler/scheduler_server.cpp, the branch of a data response: the calls of a list
-- no longer await an object.
use demeter.Prelude.{
  if◌then◌else◌, nat_eqb_iff, Bool-cases, Option-cases, Ensures, Ensures-bind, Ensures-map,
  contains, remove, contains-remove, is_nil, or_default, lookup, lookup-insert, ◌==◌, Str,
  str_eqb_iff, nat_eq, str_eq, ℕ, ◌≡◌, refl, sym, ap, subst, ◌∙◌, inl, inr, true, false, ◌&&◌,
  Option, some, List, [], ◌∷◌, arith,
}
use demeter.Trigger.ByTime.{TimePoint}
use demeter.Scheduler.{InflightFuncArgs, Waiting, Scheduler, Env}
use demeter.Scheduler.Responses.{
  with_args, without_call, ready_call, resolve_args, resolve_call, resolve_calls,
}
use demeter.Scheduler.Responses.Waits.{SameWaits, ready_call-SameWaits}
use demeter.Scheduler.Responses.Index.{awaits, holds, awaits-without_call}

nil_of : {A : Type 0} (xs : List A) → is_nil xs ≡ true → xs ≡ []
nil_of [] h = refl
nil_of (x ∷ xs) h = absurd (ground (arith, h))

module _ {D : Type 0} where
  -- The index of the keys is as it was, and the calls of a list await the key no longer.
  pub record Resolved (key : Str) (cids : List ℕ) (w w' : Waiting D) : Type 0 where
    pub keys : w'.key_call_id_map ≡ w.key_call_id_map
    pub calls :
        (other : Str) (i : ℕ)
        → awaits w' other i ≡ (if key == other && contains cids i then false else awaits w other i)

  -- A call whose last object has arrived awaits nothing.
  awaits-last :
      (key : Str) (cid : ℕ) (args : InflightFuncArgs D) (w : Waiting D)
      → lookup cid w.call_id_inflight_args_map ≡ some args
      → remove key args.inflight_args ≡ []
      → (other : Str) → (key == other) ≡ false
      → awaits w other cid ≡ false
  unfolding awaits contains
  awaits-last key cid args w found last other differ = rw (found) (
      ground (
        arith,
        contains-remove key other args.inflight_args,
        ap (λ xs. contains xs other) last,
        differ,
      ))

  with_args-Resolved :
      (key : Str) (cid : ℕ) (args : InflightFuncArgs D) (w : Waiting D)
      → lookup cid w.call_id_inflight_args_map ≡ some args
      → Resolved key
          (cid ∷ [])
          w
          (with_args cid (record args { inflight_args = remove key args.inflight_args }) w)
  unfolding awaits contains
  with_args-Resolved key cid args w found = record {
    keys = refl;
    calls = λ other i. ground (
      arith,
      nat_eqb_iff cid i,
      str_eqb_iff key other,
      found,
      ap (λ o. holds o other) found,
      lookup-insert cid i (record args { inflight_args = remove key args.inflight_args })
          w.call_id_inflight_args_map,
      contains-remove key other args.inflight_args,
    );
  }

  -- Once it is scheduled, the call leaves the map.
  without_call-Resolved :
      (key : Str) (cid : ℕ) (args : InflightFuncArgs D) (w : Waiting D)
      → lookup cid w.call_id_inflight_args_map ≡ some args
      → remove key args.inflight_args ≡ []
      → Resolved key (cid ∷ []) w (
          without_call cid
            (with_args cid (record args { inflight_args = remove key args.inflight_args }) w))
  unfolding contains
  without_call-Resolved key cid args w found last = record {
    keys = refl;
    calls = λ other i. ground (
      arith,
      nat_eqb_iff cid i,
      str_eqb_iff key other,
      awaits-last key cid args w found last other,
      awaits-without_call cid
          (with_args cid (record args { inflight_args = remove key args.inflight_args }) w) other i,
      (with_args-Resolved key cid args w found).calls other i,
    );
  }

  abbrev Fine : Str → List ℕ → Waiting D → Option (Scheduler D) → Type 0
  Fine key cids w = Ensures (λ (s' : Scheduler D). Resolved key cids w s'.waiting)

  -- The call without the object, and the state that holds it.
  abbrev less : Str → InflightFuncArgs D → InflightFuncArgs D
  less key args = record args { inflight_args = remove key args.inflight_args }

  abbrev held : Str → ℕ → InflightFuncArgs D → Scheduler D → Scheduler D
  held key cid args s = record s { waiting = with_args cid (less key args) s.waiting }

  Resolved-cons :
      (key : Str) (cid : ℕ) (cids : List ℕ) (w w' w'' : Waiting D)
      → Resolved key (cid ∷ []) w w'
      → Resolved key cids w' w''
      → Resolved key (cid ∷ cids) w w''
  unfolding contains
  Resolved-cons key cid cids w w' w'' a b = record {
    keys = b.keys ∙ a.keys;
    calls = λ other i. ground (arith, a.calls other i, b.calls other i);
  }

module _ {B D : Type 0} (env : Env B D) where
  resolve_args-Resolved :
      (now : TimePoint) (key : Str) (cid : ℕ) (args : InflightFuncArgs D) (s : Scheduler D)
      → lookup cid s.waiting.call_id_inflight_args_map ≡ some args
      → Fine key (cid ∷ []) s.waiting (resolve_args env now key cid args s)
  unfolding resolve_args
  resolve_args-Resolved now key cid args s found =
      elim (Bool-cases (is_nil (remove key args.inflight_args))) [
        | inr more ↦ rw more (with_args-Resolved key cid args s.waiting found)
        | inl last ↦ rw last (
            Ensures-bind (SameWaits env (held key cid args s))
              (λ (s' : Scheduler D). Resolved key (cid ∷ []) s.waiting s'.waiting)
              (ready_call env now (or_default [] (lookup args.func_name s.func_app_map))
                (less key args) (held key cid args s))
              (λ (s' : Scheduler D). some (record s' { waiting = without_call cid s'.waiting }))
              (ready_call-SameWaits env now (or_default [] (lookup args.func_name s.func_app_map))
                (less key args) (held key cid args s))
              (λ s' unmoved.
                subst (λ w. Resolved key (cid ∷ []) s.waiting (without_call cid w)) (sym unmoved)
                  (without_call-Resolved key cid args s.waiting found
                    (nil_of (remove key args.inflight_args) last))))
      ]

  resolve_call-Resolved :
      (now : TimePoint) (key : Str) (cid : ℕ) (s : Scheduler D)
      → Fine key (cid ∷ []) s.waiting (resolve_call env now key cid s)
  unfolding resolve_call
  resolve_call-Resolved now key cid s =
      elim (Option-cases (lookup cid s.waiting.call_id_inflight_args_map)) [
        | inl missing ↦ rw missing tt
        | inr (args, found) ↦ rw found (resolve_args-Resolved now key cid args s found)
      ]

  pub resolve_calls-Resolved :
      (cids : List ℕ) (now : TimePoint) (key : Str) (s : Scheduler D)
      → Fine key cids s.waiting (resolve_calls env now key cids s)
  unfolding resolve_calls contains
  resolve_calls-Resolved [] now key s = record { keys = refl; calls = λ other i. ground arith }
  resolve_calls-Resolved (cid ∷ cids) now key s =
      Ensures-bind (λ (s' : Scheduler D). Resolved key (cid ∷ []) s.waiting s'.waiting)
        (λ (s' : Scheduler D). Resolved key (cid ∷ cids) s.waiting s'.waiting)
        (resolve_call env now key cid s) _ (resolve_call-Resolved now key cid s)
        (λ s' a.
          Ensures-map (λ (s'' : Scheduler D). Resolved key cids s'.waiting s''.waiting)
            (λ (s'' : Scheduler D). Resolved key (cid ∷ cids) s.waiting s''.waiting)
            (λ s'' b. Resolved-cons key cid cids s.waiting s'.waiting s''.waiting a b)
            (resolve_calls env now key cids s') (resolve_calls-Resolved cids now key s'))

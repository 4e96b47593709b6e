-- ===== src/Scheduler/Responses/Index.antt =====
-- pheromone/src/scheduler/scheduler_server.cpp: the maps `call_id_inflight_args_map` and
-- `key_call_id_map` are one relation between calls and the objects that they await.
use demeter.Prelude.{
  if◌then◌else◌, contains, add, IsSetList, contains-add, or_default, lookup, lookup-insert,
  lookup-erase, lookup-update, ◌==◌, Str, str_eqb_iff, nat_eq, str_eq, ℕ, ◌≡◌, Bool, false, ◌&&◌,
  ◌||◌, Option, none, some, [], arith,
}
use demeter.Scheduler.{InflightFuncArgs, Waiting}
use demeter.Scheduler.Responses.{with_key, with_args, without_call, without_key}

-- The calls that await an object, in each of the two maps.
abbrev pub Relation : Type 0
Relation = Str → ℕ → Bool

abbrev pub holds : {D : Type 0} → Option (InflightFuncArgs D) → Str → Bool
holds none key = false
holds (some args) key = contains args.inflight_args key

unfoldable pub awaits : {D : Type 0} → Waiting D → Relation
awaits w key cid = holds (lookup cid w.call_id_inflight_args_map) key

unfoldable pub listed : {D : Type 0} → Waiting D → Relation
listed w key cid = contains (or_default [] (lookup key w.key_call_id_map)) cid

-- The two maps hold the same relation, and no set holds a call twice.
pub record IsIndexed {D : Type 0} (w : Waiting D) : Type 0 where
  pub agree : (key : Str) (cid : ℕ) → listed w key cid ≡ awaits w key cid
  pub sets : (key : Str) → IsSetList (or_default [] (lookup key w.key_call_id_map))

-- What the arrival of an object does to the relation.
unfoldable pub arrive : Str → Relation → Relation
arrive key r other cid = if key == other then false else r other cid

module _ {D : Type 0} where
  pub awaits-with_args :
      (cid : ℕ) (args : InflightFuncArgs D) (w : Waiting D) (key : Str) (other : ℕ)
      → awaits (with_args cid args w) key other
        ≡ (if cid == other then contains args.inflight_args key else awaits w key other)
  unfolding awaits
  awaits-with_args cid args w key other =
      ground (arith, lookup-insert cid other args w.call_id_inflight_args_map)

  pub awaits-without_call :
      (cid : ℕ) (w : Waiting D) (key : Str) (other : ℕ)
      → awaits (without_call cid w) key other ≡ (if cid == other then false else awaits w key other)
  unfolding awaits
  awaits-without_call cid w key other =
      ground (arith, lookup-erase cid other w.call_id_inflight_args_map)

  pub listed-without_key :
      (key : Str) (w : Waiting D) (other : Str) (cid : ℕ)
      → listed (without_key key w) other cid ≡ (if key == other then false else listed w other cid)
  unfolding listed contains
  listed-without_key key w other cid = ground (arith, lookup-erase key other w.key_call_id_map)

  pub listed-with_key :
      (key : Str) (cid : ℕ) (w : Waiting D) (other : Str) (i : ℕ)
      → listed (with_key key cid w) other i ≡ ((key == other && cid == i) || listed w other i)
  unfolding listed
  listed-with_key key cid w other i = ground (
    arith,
    str_eqb_iff key other,
    lookup-update key other [] (add cid) w.key_call_id_map,
    contains-add cid i (or_default [] (lookup key w.key_call_id_map)),
  )

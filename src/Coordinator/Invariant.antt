-- ===== src/Coordinator/Invariant.antt =====
-- The three maps of the coordinator about buckets, applications and triggers, under every handler
-- of pheromone/src/coordinator.
pub mod Handlers
use demeter.Prelude.{
  if◌then◌else◌, contains, add, remove, contains-add, contains-remove, Map, is_some, or_default,
  lookup, insert, erase, update, lookup-insert, lookup-erase, lookup-update, ◌==◌, Str, str_eqb_iff,
  nat_eq, str_eq, eq_refl, ◌≡◌, ◌≢◌, true, false, Option, some, List, [], arith,
}
use demeter.Coordinator.{Coordinator}
use demeter.Trigger.Any.{TriggerPointer}

abbrev pub owner : Coordinator → Str → Option Str
owner c bucket = lookup bucket c.bucket_app_map

abbrev pub buckets_of : Coordinator → Str → List Str
buckets_of c app = or_default [] (lookup app c.app_buckets_map)

abbrev pub triggers_of : Coordinator → Str → List TriggerPointer
triggers_of c bucket = or_default [] (lookup bucket c.bucket_triggers_map)

-- An application lists every bucket that it owns, and only a bucket that exists has triggers.
pub record IsConsistent (c : Coordinator) : Type 0 where
  pub owned :
      (bucket app : Str) → owner c bucket ≡ some app → contains (buckets_of c app) bucket ≡ true
  pub triggered : (bucket : Str) → triggers_of c bucket ≢ [] → is_some (owner c bucket) ≡ true

module _ (c : Coordinator) (ok : IsConsistent c) (app bucket : Str) where
  -- A bucket is given to an application, and only it may get triggers.
  pub give-IsConsistent :
      (triggers : Map Str (List TriggerPointer))
      → ((j : Str) → (bucket == j) ≡ false → or_default [] (lookup j triggers) ≡ triggers_of c j)
      → IsConsistent (record c {
        app_buckets_map = update app [] (add bucket) c.app_buckets_map;
        bucket_app_map = insert bucket app c.bucket_app_map;
        bucket_triggers_map = triggers;
      })
  give-IsConsistent triggers same = record {
    owned = λ b a e. ground (
      arith,
      str_eqb_iff bucket b,
      str_eqb_iff app a,
      eq_refl {A = Str} a,
      eq_refl {A = Str} b,
      lookup-insert bucket b app c.bucket_app_map,
      lookup-update app a [] (add bucket) c.app_buckets_map,
      contains-add bucket b (buckets_of c app),
      ok.owned b a,
    );
    triggered =
        λ b n. ground (arith, lookup-insert bucket b app c.bucket_app_map, same b, ok.triggered b);
  }

  -- A bucket is taken away, with its triggers.
  pub take-IsConsistent :
      (triggers : Map Str (List TriggerPointer))
      → ((j : Str)
          → or_default [] (lookup j triggers) ≡ (if bucket == j then [] else triggers_of c j))
      → IsConsistent (record c {
        app_buckets_map = update app [] (remove bucket) c.app_buckets_map;
        bucket_app_map = erase bucket c.bucket_app_map;
        bucket_triggers_map = triggers;
      })
  take-IsConsistent triggers after = record {
    owned = λ b a e. ground (
      arith,
      str_eqb_iff bucket b,
      str_eqb_iff app a,
      lookup-erase bucket b c.bucket_app_map,
      lookup-update app a [] (remove bucket) c.app_buckets_map,
      contains-remove bucket b (buckets_of c app),
      ok.owned b a,
    );
    triggered =
        λ b n. ground (arith, lookup-erase bucket b c.bucket_app_map, after b, ok.triggered b);
  }

  -- The triggers of a bucket that exists are changed.
  pub change-IsConsistent :
      (triggers : Map Str (List TriggerPointer))
      → is_some (owner c bucket) ≡ true
      → ((j : Str) → (bucket == j) ≡ false → or_default [] (lookup j triggers) ≡ triggers_of c j)
      → IsConsistent (record c { bucket_triggers_map = triggers })
  change-IsConsistent triggers exists same = record {
    owned = ok.owned;
    triggered = λ b n. ground (arith, str_eqb_iff bucket b, same b, ok.triggered b);
  }

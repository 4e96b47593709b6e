-- ===== src/Coordinator/Notify/Effects.antt =====
-- pheromone/src/coordinator/notify_handler.cpp: what a notification leaves alone.
use demeter.Names.{get_bucket_key_from_addr, BucketKey, BucketKeyAddress}
use demeter.Trigger.{TriggerAction}
use demeter.Trigger.Any.{action_for_new_object, get_trigger_option, TriggerPointer}
use demeter.Trigger.ByTime.{TimePoint}
use demeter.Coordinator.{Coordinator, NodeStatus}
use demeter.Coordinator.Invariant.{owner, IsConsistent, triggers_of}
use demeter.Coordinator.Workers.{host_of, action_args}
use demeter.Coordinator.Notify.{
  fire, is_skipped, notify_recorded, KeyNotifyRequest, Effect, perform_action, perform_actions,
  check_triggers, notify_object, notify_objects, record_object,
}
use demeter.Prelude.{
  Bool-cases, ◌>>=◌, Ensures, Ensures-bind, if-both, Ensures-bind_any, Ensures-map, get_elem?, Map,
  is_some, insert, update, lookup-insert, lookup-touch, Str, str_eqb_iff, nat_eq, str_eq, ℕ, ◌+◌,
  ◌≡◌, refl, sym, ap, ◌∙◌, true, false, Option, none, some, List, [], ◌∷◌, ◌++◌, arith,
}

-- The maps of buckets, applications and triggers read the same.
record Keeps (c c' : Coordinator) : Type 0 where
  owners : (j : Str) → owner c' j ≡ owner c j
  buckets : c'.app_buckets_map ≡ c.app_buckets_map
  triggers : c'.bucket_triggers_map ≡ c.bucket_triggers_map

Keeps-refl : (c : Coordinator) → Keeps c c
Keeps-refl c = record { owners = λ j. refl; buckets = refl; triggers = refl }

Keeps-trans : (a b c : Coordinator) → Keeps a b → Keeps b c → Keeps a c
Keeps-trans a b c h k = record {
  owners = λ j. k.owners j ∙ h.owners j;
  buckets = k.buckets ∙ h.buckets;
  triggers = k.triggers ∙ h.triggers;
}

-- The triggers of one bucket are replaced, and by none if the bucket does not exist.
replace-IsConsistent :
    (c c' : Coordinator) (bucket : Str) (ts : List TriggerPointer)
    → IsConsistent c
    → Keeps c c'
    → (is_some (owner c bucket) ≡ false → ts ≡ [])
    → IsConsistent (record c' { bucket_triggers_map = insert bucket ts c'.bucket_triggers_map })
replace-IsConsistent c c' bucket ts ok k empty = record {
  owned = λ b a e. rw k.buckets (ok.owned b a (sym (k.owners b) ∙ e));
  triggered = λ b n. ground (
    arith,
    k.owners b,
    k.triggers,
    str_eqb_iff bucket b,
    lookup-insert bucket b ts c'.bucket_triggers_map,
    ok.triggered b,
    empty,
    Bool-cases (is_some (owner c bucket)),
  );
}

module _ (B : Type 0) {D : Type 0} (zero_cores : D) (rand_r : ℕ → ℕ × ℕ) (io_thread_num : ℕ) where
  abbrev Kept : Coordinator → Option (Effect B D) → Type 0
  Kept c = Ensures (λ r. Keeps c r.0.0)

  module _ (request : KeyNotifyRequest) (b : BucketKey) where
    perform_action-Keeps :
        (arg_flag seed : ℕ) (c : Coordinator) (action : TriggerAction)
        → is_some (owner c b.bucket) ≡ true
        → Kept c
            (perform_action zero_cores rand_r io_thread_num request b arg_flag (c, seed) action)
    unfolding perform_action
    perform_action-Keeps arg_flag seed c action exists =
        Ensures-bind_any (λ r. Keeps c r.0.0) (action_args c b.bucket arg_flag action.session_keys)
          _ (λ a. if-both (λ (r : Effect B D). Keeps c r.0.0) _ _ _ (touched _) (touched _))
      where
        touched :
            (nodes : Map Str NodeStatus)
            → Keeps c (record c {
              bucket_app_map = update b.bucket [] (λ app. app) c.bucket_app_map;
              node_status_map = nodes;
            })
        touched nodes = record {
          owners = λ j. lookup-touch b.bucket j [] c.bucket_app_map exists;
          buckets = refl;
          triggers = refl;
        }

    perform_actions-Keeps :
        (arg_flag : ℕ) (s : Coordinator × ℕ) (actions : List TriggerAction)
        → is_some (owner s.0 b.bucket) ≡ true
        → Kept s.0 (perform_actions zero_cores rand_r io_thread_num request b arg_flag s actions)
    unfolding perform_actions
    perform_actions-Keeps arg_flag s [] exists = Keeps-refl s.0
    perform_actions-Keeps arg_flag (c, seed) (a ∷ actions) exists =
        Ensures-bind (λ r. Keeps c r.0.0) (λ r. Keeps c r.0.0)
          (perform_action zero_cores rand_r io_thread_num request b arg_flag (c, seed) a) _
          (perform_action-Keeps arg_flag seed c a exists)
          (λ r k.
            Ensures-bind (λ q. Keeps r.0.0 q.0.0) (λ r. Keeps c r.0.0)
              (perform_actions zero_cores rand_r io_thread_num request b arg_flag r.0 actions) _
              (perform_actions-Keeps arg_flag r.0 actions (ap is_some (k.owners b.bucket) ∙ exists))
              (λ q l. Keeps-trans c r.0.0 q.0.0 k l))

    fire-Keeps :
        (s : Coordinator × ℕ) (fired : TriggerPointer × List TriggerAction)
        → is_some (owner s.0 b.bucket) ≡ true
        → Kept s.0 (fire zero_cores rand_r io_thread_num request b s fired)
    unfolding fire
    fire-Keeps s (t, actions) exists =
        if-both (Kept s.0) (is_skipped request t actions) (some (s, []))
          (perform_actions zero_cores rand_r io_thread_num request b (get_trigger_option t + 1) s
            actions)
          (Keeps-refl s.0) (perform_actions-Keeps (get_trigger_option t + 1) s actions exists)

    abbrev Checks : Type 0
    Checks = List TriggerPointer × List Str × Effect B D

    abbrev Checked : Coordinator → Option (List TriggerPointer × List Str × Effect B D) → Type 0
    Checked c = Ensures (λ r. Keeps c r.2.0.0)

    check_triggers-Keeps :
        (now : TimePoint) (ts : List TriggerPointer) (s : Coordinator × ℕ)
        → is_some (owner s.0 b.bucket) ≡ true
        → Checked s.0 (check_triggers zero_cores rand_r io_thread_num now request b s ts)
    unfolding check_triggers
    check_triggers-Keeps now [] s exists = Keeps-refl s.0
    check_triggers-Keeps now (t ∷ ts) (c, seed) exists =
        Ensures-bind {B = Checks} (λ r. Keeps c r.0.0) (λ r. Keeps c r.2.0.0)
          (fire zero_cores rand_r io_thread_num request b (c, seed) (action_for_new_object now t b))
          _ (fire-Keeps (c, seed) (action_for_new_object now t b) exists)
          (λ r k.
            Ensures-bind (λ q. Keeps r.0.0 q.2.0.0) (λ r. Keeps c r.2.0.0)
              (check_triggers zero_cores rand_r io_thread_num now request b r.0 ts) _
              (check_triggers-Keeps now ts r.0 (ap is_some (k.owners b.bucket) ∙ exists))
              (λ q l. Keeps-trans c r.0.0 q.2.0.0 k l))

    -- The triggers of a bucket that does not exist are none, and none are checked.
    check_triggers-replace :
        (now : TimePoint) (c : Coordinator) (seed : ℕ)
        → IsConsistent c
        → Ensures
            (λ (r : Checks). IsConsistent (record r.2.0.0 {
              bucket_triggers_map = insert b.bucket r.0 r.2.0.0.bucket_triggers_map;
            }))
            (check_triggers zero_cores rand_r io_thread_num now request b
              (c, seed)
              (triggers_of c b.bucket))
    unfolding check_triggers
    check_triggers-replace now c seed ok = go (triggers_of c b.bucket) refl
      where
        go :
            (ts : List TriggerPointer)
            → triggers_of c b.bucket ≡ ts
            → Ensures
                (λ (r : Checks). IsConsistent (record r.2.0.0 {
                  bucket_triggers_map = insert b.bucket r.0 r.2.0.0.bucket_triggers_map;
                }))
                (check_triggers zero_cores rand_r io_thread_num now request b (c, seed) ts)
        go [] e = replace-IsConsistent c c b.bucket [] ok (Keeps-refl c) (λ _. refl)
        go (t ∷ ts) e =
            Ensures-map (λ (r : Checks). Keeps c r.2.0.0) _
              (λ r k.
                replace-IsConsistent c r.2.0.0 b.bucket r.0 ok k
                  (λ missing. absurd (exists missing)))
              (check_triggers zero_cores rand_r io_thread_num now request b (c, seed) (t ∷ ts))
              (check_triggers-Keeps now (t ∷ ts) (c, seed) there)
          where
            there : is_some (owner c b.bucket) ≡ true
            there = ok.triggered b.bucket (λ n. ground (arith, e, n))

            exists : ¬ (is_some (owner c b.bucket) ≡ false)
            exists missing = ground (arith, there, missing)

  record_object-IsConsistent :
      (c : Coordinator) (b : BucketKey) (ip payload : Str)
      → IsConsistent c
      → Ensures (Ensures IsConsistent) (record_object c b ip payload)
  unfolding record_object
  record_object-IsConsistent c b ip payload ok =
      if-both (Ensures (Ensures IsConsistent)) _ (some none) _ tt (
        Ensures-bind_any (Ensures IsConsistent) (host_of ip) _
          (λ host. record { owned = ok.owned; triggered = ok.triggered }))

  notify_object-IsConsistent :
      (now : TimePoint) (request : KeyNotifyRequest) (c : Coordinator) (seed : ℕ)
      (address : BucketKeyAddress)
      → IsConsistent c
      → Ensures
          (Ensures (λ (r : Effect B D). IsConsistent r.0.0))
          (notify_object zero_cores rand_r io_thread_num now request (c, seed) address)
  unfolding notify_object notify_recorded
  notify_object-IsConsistent now request c seed address ok =
      Ensures-bind_any Result (get_elem? address.ips 0) _ (λ ip.
        Ensures-bind (Ensures IsConsistent) Result (record_object c b ip address.payload) _
          (record_object-IsConsistent c b ip address.payload ok) after)
    where
      b : BucketKey
      b = get_bucket_key_from_addr address

      Result : Option (Effect B D) → Type 0
      Result = Ensures (λ r. IsConsistent r.0.0)

      after :
          (recorded : Option Coordinator)
          → Ensures IsConsistent recorded
          → Ensures Result
              (notify_recorded zero_cores rand_r io_thread_num now request b seed recorded)
      after none h = tt
      after (some c') h =
          Ensures-bind
            (λ (r : List TriggerPointer × List Str × Effect B D). IsConsistent (record r.2.0.0 {
              bucket_triggers_map = insert b.bucket r.0 r.2.0.0.bucket_triggers_map;
            }))
            Result
            (check_triggers zero_cores rand_r io_thread_num now request b (c', seed)
              (triggers_of c' b.bucket))
            _ (check_triggers-replace request b now c' seed h) (λ r k. k)

  -- The maps stay consistent under every notification that returns.
  pub notify_objects-IsConsistent :
      (now : TimePoint) (request : KeyNotifyRequest) (s : Coordinator × ℕ)
      (addresses : List BucketKeyAddress)
      → IsConsistent s.0
      → Ensures
          (λ (r : Effect B D). IsConsistent r.0.0)
          (notify_objects zero_cores rand_r io_thread_num now request s addresses)
  unfolding notify_objects
  notify_objects-IsConsistent now request s [] ok = ok
  notify_objects-IsConsistent now request (c, seed) (address ∷ rest) ok =
      Ensures-bind (Ensures (λ (r : Effect B D). IsConsistent r.0.0)) (λ r. IsConsistent r.0.0)
        (notify_object zero_cores rand_r io_thread_num now request (c, seed) address) _
        (notify_object-IsConsistent now request c seed address ok)
        (λ one h. after one h (λ s k. notify_objects-IsConsistent now request s rest k))
    where
      Rest : Option (Effect B D) → Type 0
      Rest = Ensures (λ r. IsConsistent r.0.0)

      after :
          (one : Option (Effect B D))
          → Rest one
          → ((s : Coordinator × ℕ)
              → IsConsistent s.0
              → Rest (notify_objects zero_cores rand_r io_thread_num now request s rest))
          → Rest (elim one [
            | none ↦ some ((c, seed), [])
            | some (s', sent) ↦ do
              (s'', later) ← notify_objects zero_cores rand_r io_thread_num now request s' rest
              some (s'', sent ++ later)
          ])
      after none h go = ok
      after (some (s', sent)) h go =
          Ensures-bind (λ (r : Effect B D). IsConsistent r.0.0) (λ r. IsConsistent r.0.0)
            (notify_objects zero_cores rand_r io_thread_num now request s' rest) _ (go s' h)
            (λ r k. k)

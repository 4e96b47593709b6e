-- ===== src/Trigger/ByTime/Buffer.antt =====
-- trigger.hpp, `ByTimeTrigger`: what arrives leaves once, in order, when the window has passed.
use mathlib.Core.List.{append-nil}
use demeter.Prelude.{
  All, Str, nat_eq, str_eq, ◌+◌, ◌*◌, ◌≤◌, ◌<◌, ◌≡◌, refl, ◌≢◌, List, [], ◌∷◌, ◌++◌, map, arith,
}
use demeter.Names.{BucketKey}
use demeter.Trigger.{TriggerAction, session_key}
use demeter.Trigger.Feed.{feed, sent, Keeps, feed-Keeps}
use demeter.Trigger.ByTime.{ByTimeTrigger, TimePoint, has_elapsed, action_for_new_object}

-- An object with the time at which it arrives.
abbrev pub arrive : ByTimeTrigger → TimePoint × BucketKey → ByTimeTrigger × List TriggerAction
arrive t e = action_for_new_object e.0 t e.1

abbrev pub object : TimePoint × BucketKey → Str × Str
object e = session_key e.1

abbrev Targets : Str → ByTimeTrigger → Type 0
Targets function t = t.base.target_function ≡ function

abbrev pub Calls : Str → TriggerAction → Type 0
Calls function a = (a.function ≡ function) × (a.session_keys ≢ [])

append-ne-nil : (xs : List (Str × Str)) (x : Str × Str) → xs ++ x ∷ [] ≢ []
append-ne-nil [] x e = cc
append-ne-nil (y ∷ xs) x e = cc

step-Keeps :
    (function : Str) (t : ByTimeTrigger) (e : TimePoint × BucketKey)
    → Targets function t
    → Keeps
        (Targets function)
        (Calls function)
        (λ t. t.buffer)
        (t.buffer ++ object e ∷ [])
        (arrive t e)
unfolding action_for_new_object sent
step-Keeps function t e h =
    ground (arith, append-ne-nil t.buffer (object e), append-nil (t.buffer ++ object e ∷ []))

-- At whatever times the objects arrive: the actions' objects and then the buffer are the old
-- buffer and then the new objects, in order, and each action calls the target function with at
-- least one object.
pub feed-conserves :
    (t : ByTimeTrigger) (es : List (TimePoint × BucketKey))
    → let r = feed arrive t es in
      (sent r.1 ++ r.0.buffer ≡ t.buffer ++ map object es)
      × All (Calls t.base.target_function) r.1
      × (r.0.base.target_function ≡ t.base.target_function)
feed-conserves t es =
    feed-Keeps arrive object (Targets function) (Calls function) (λ t. t.buffer)
      (step-Keeps function) t es refl
  where
    function : Str
    function = t.base.target_function

-- While the clock is not set back: an object that arrives before the window has passed since the
-- last trigger waits in the buffer, and the first one at or after its end sends the whole buffer
-- and starts the next window at that object's time.
pub action_for_new_object-window :
    (now : TimePoint) (t : ByTimeTrigger) (b : BucketKey)
    → t.last_trigger_stamp ≤ now
    → let r = action_for_new_object now t b in
      (now < t.last_trigger_stamp + t.time_window * 1_000_000
        → (r.1 ≡ [])
          × (r.0.buffer ≡ t.buffer ++ session_key b ∷ [])
          × (r.0.last_trigger_stamp ≡ t.last_trigger_stamp))
      × (t.last_trigger_stamp + t.time_window * 1_000_000 ≤ now
          → (sent r.1 ≡ t.buffer ++ session_key b ∷ [])
            × (r.0.buffer ≡ [])
            × (r.0.last_trigger_stamp ≡ now))
unfolding action_for_new_object has_elapsed sent
action_for_new_object-window now t b h =
    (λ k. ground arith, λ k. ground (arith, append-nil (t.buffer ++ session_key b ∷ [])))

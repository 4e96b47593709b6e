-- ===== src/Trigger/ByBatchSize/Batches.antt =====
-- trigger.hpp, `ByBatchSizeTrigger`: the objects leave in order, in batches of the size asked for.
use mathlib.Core.List.{append-nil}
use demeter.Prelude.{
  length, length-append, All, Str, nat_eq, str_eq, pos, ℕ, ◌<◌, ◌≡◌, List, [], ◌∷◌, ◌++◌, map,
  arith,
}
use demeter.Names.{BucketKey}
use demeter.Trigger.{TriggerAction, session_key}
use demeter.Trigger.Feed.{feed, sent, Keeps, feed-Keeps}
use demeter.Trigger.ByBatchSize.{ByBatchSizeTrigger, action_for_new_object}

-- A positive count, and fewer objects than that in the buffer.
abbrev pub IsFilling : Str → ℕ → ByBatchSizeTrigger → Type 0
IsFilling function c t =
    (t.base.target_function ≡ function) × (t.count ≡ pos c) × (length t.buffer < c)

abbrev pub IsBatch : Str → ℕ → TriggerAction → Type 0
IsBatch function c a = (a.function ≡ function) × (length a.session_keys ≡ c)

step-Keeps :
    (function : Str) (c : ℕ) (t : ByBatchSizeTrigger) (b : BucketKey)
    → IsFilling function c t
    → Keeps
        (IsFilling function c)
        (IsBatch function c)
        (λ t. t.buffer)
        (t.buffer ++ session_key b ∷ [])
        (action_for_new_object t b)
unfolding action_for_new_object sent
step-Keeps function c t b h = ground (
  arith,
  length-append t.buffer (session_key b ∷ []),
  append-nil (t.buffer ++ session_key b ∷ []),
)

-- With a positive count and fewer objects than that in the buffer: the actions' objects and then
-- the buffer are the old buffer and then the new objects, in order, so that no object is lost,
-- repeated or overtaken; each action calls the target function with exactly `count` objects; and
-- the buffer stays below the count.
pub feed-batches :
    (function : Str) (c : ℕ) (t : ByBatchSizeTrigger) (bs : List BucketKey)
    → IsFilling function c t
    → let r = feed action_for_new_object t bs in
      (sent r.1 ++ r.0.buffer ≡ t.buffer ++ map session_key bs)
      × All (IsBatch function c) r.1
      × IsFilling function c r.0
feed-batches function c =
    feed-Keeps action_for_new_object session_key (IsFilling function c) (IsBatch function c)
      (λ t. t.buffer) (step-Keeps function c)

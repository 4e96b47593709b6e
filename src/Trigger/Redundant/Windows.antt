-- ===== src/Trigger/Redundant/Windows.antt =====
-- trigger.hpp, `RedundantTrigger`: which objects of a window are handed over.
use mathlib.Core.List.{append-nil, append_assoc, map-append}
use demeter.Prelude.{
  ltb, if◌then◌else◌, length, take, length-append, nat_eq, str_eq, ℕ, zero, suc, ◌+◌, ◌-◌, ◌≤◌, ◌<◌,
  ◌≡◌, refl, sym, ap, ◌∙◌, ◌⊎◌, inl, inr, List, [], ◌∷◌, ◌++◌, map, arith,
}
use demeter.Names.{BucketKey}
use demeter.Trigger.{TriggerAction, session_key}
use demeter.Trigger.Feed.{feed, feed_then, feed_first, feed_last}
use demeter.Trigger.Redundant.{RedundantTrigger, action_for_new_object, u32}

step-collect :
    (t : RedundantTrigger) (b : BucketKey)
    → t.count + 1 < t.k
    → t.k < u32
    → action_for_new_object t b
      ≡ (record t { count = t.count + 1; buffer = t.buffer ++ session_key b ∷ [] }, [])
unfolding action_for_new_object
step-collect t b h w = ground arith

step-fire :
    (t : RedundantTrigger) (b : BucketKey)
    → t.count + 1 ≡ t.k
    → t.k < u32
    → action_for_new_object t b ≡ (
      record t { count = t.k; buffer = [] },
      record { function = t.base.target_function; session_keys = t.buffer ++ session_key b ∷ [] }
          ∷ [],
    )
unfolding action_for_new_object
step-fire t b h w = ground arith

step-drop :
    (t : RedundantTrigger) (b : BucketKey)
    → t.k ≤ t.count
    → t.count + 1 < t.n
    → t.n < u32
    → action_for_new_object t b ≡ (record t { count = t.count + 1 }, [])
unfolding action_for_new_object
step-drop t b h k w = ground arith

step-refresh :
    (t : RedundantTrigger) (b : BucketKey)
    → t.k ≤ t.count
    → t.n ≤ t.count + 1
    → t.count + 1 < u32
    → action_for_new_object t b ≡ (record t { count = 0 }, [])
unfolding action_for_new_object
step-refresh t b h k w = ground arith

-- Before the k-th object, objects are collected.
feed-collect :
    (t : RedundantTrigger) (xs : List BucketKey)
    → t.count + length xs < t.k
    → t.k < u32
    → feed action_for_new_object t xs
      ≡ (record t { count = t.count + length xs; buffer = t.buffer ++ map session_key xs }, [])
unfolding feed
feed-collect t [] h w = ground (arith, append-nil t.buffer)
feed-collect t (b ∷ xs) h w =
    rw
      (
        step-collect t b (omega arith) w,
        feed-collect (record t { count = t.count + 1; buffer = t.buffer ++ session_key b ∷ [] }) xs
            (omega arith) w,
      )
      (ground (arith, append_assoc t.buffer (session_key b ∷ []) (map session_key xs)))

-- Between the k-th and the n-th, they are dropped.
feed-drop :
    (t : RedundantTrigger) (ys : List BucketKey)
    → t.k ≤ t.count
    → (ys ≡ []) ⊎ (t.count + length ys < t.n)
    → t.n < u32
    → feed action_for_new_object t ys ≡ (record t { count = t.count + length ys }, [])
unfolding feed
feed-drop t [] h k w = ground arith
feed-drop t (b ∷ ys) h (inl e) w = cc
feed-drop t (b ∷ ys) h (inr k) w =
    rw
      (
        step-drop t b h (omega arith) w,
        feed-drop (record t { count = t.count + 1 }) ys (omega arith) (inr (omega arith)) w,
      )
      (ground arith)

-- A trigger at the start of a window.
abbrev pub IsFresh : RedundantTrigger → Type 0
IsFresh t = (t.count ≡ 0) × (t.buffer ≡ [])

window_parts :
    (t : RedundantTrigger) (xs : List BucketKey) (b : BucketKey) (ys : List BucketKey)
    (c : BucketKey)
    → IsFresh t
    → length xs + 1 ≡ t.k
    → t.k + 1 < u32
    → t.n < u32
    → (ys ≡ []) ⊎ (t.k + length ys < t.n)
    → t.n ≤ t.k + length ys + 1
    → t.k + length ys + 1 < u32
    → feed action_for_new_object t (xs ++ (b ∷ (ys ++ c ∷ []))) ≡ (
      t,
      record { function = t.base.target_function; session_keys = map session_key (xs ++ b ∷ []) }
          ∷ [],
    )
unfolding feed
window_parts t xs b ys c f h w w' d n w'' =
    feed_then action_for_new_object _ _ xs (b ∷ (ys ++ c ∷ [])) [] _
      (feed-collect t xs (omega arith) (omega arith))
      (feed_first action_for_new_object _ _ b (ys ++ c ∷ []) (action ∷ []) []
        (step-fire collected b (omega arith) (omega arith)
          ∙ ground (arith, map-append session_key xs (b ∷ [])))
        (feed_then action_for_new_object _ _ ys (c ∷ []) [] []
          (feed-drop (record t { count = t.k; buffer = [] }) ys (omega arith) d w')
          (feed_last action_for_new_object _ c [] (
            step-refresh (record t { count = t.k + length ys; buffer = [] }) c (omega arith)
              (omega arith) (omega arith)
            ∙ ground arith))))
  where
    collected : RedundantTrigger
    collected = record t { count = t.count + length xs; buffer = t.buffer ++ map session_key xs }

    action : TriggerAction
    action = record {
      function = t.base.target_function;
      session_keys = map session_key (xs ++ b ∷ []);
    }

-- The number of objects after which the counter is back at 0.
abbrev pub period : ℕ → ℕ → ℕ
period k n = if ltb k n then n else k + 1

-- A list with its element at an index.
record Split (i : ℕ) (bs : List BucketKey) : Type 0 where
  before : List BucketKey
  here : BucketKey
  behind : List BucketKey
  whole : bs ≡ before ++ here ∷ behind
  size : length before ≡ i

Split-at : (i : ℕ) (bs : List BucketKey) → i < length bs → Split i bs
Split-at i [] h = absurd (omega arith)
Split-at zero (b ∷ bs) h = record { before = []; here = b; behind = bs; whole = refl; size = refl }
Split-at (suc i) (b ∷ bs) h =
    let s = Split-at i bs (omega arith) in
    record {
      before = b ∷ s.before;
      here = s.here;
      behind = s.behind;
      whole = ap (◌∷◌ b) s.whole;
      size = ap suc s.size;
    }

take-first :
    (xs zs : List BucketKey) (b : BucketKey) → take (suc (length xs)) (xs ++ b ∷ zs) ≡ xs ++ b ∷ []
take-first [] zs b = refl
take-first (x ∷ xs) zs b = ap (◌∷◌ x) (take-first xs zs b)

nil_of_length : (xs : List BucketKey) → length xs ≡ 0 → xs ≡ []
nil_of_length [] e = refl
nil_of_length (x ∷ xs) e = absurd (omega arith)

abbrev first_k : RedundantTrigger → List BucketKey → TriggerAction
first_k t bs = record {
  function = t.base.target_function;
  session_keys = map session_key (take t.k bs);
}

window_of_Split :
    (t : RedundantTrigger) (bs : List BucketKey)
    → IsFresh t
    → 1 ≤ t.k
    → t.k + 1 < u32
    → t.n < u32
    → length bs ≡ period t.k t.n
    → (s : Split (t.k - 1) bs) → Split (length s.behind - 1) s.behind
    → feed action_for_new_object t bs ≡ (t, first_k t bs ∷ [])
window_of_Split t bs f h w w' len s r = rw firsts (
    rw whole (
      window_parts t s.before s.here r.before r.here f (omega arith) w w' (dropped r.before refl)
        (ground (arith, size, size')) (ground (arith, size, size'))))
  where
    size : length bs ≡ t.k + length s.behind
    size = omega (arith, ap length s.whole, length-append s.before (s.here ∷ s.behind))

    size' : length s.behind ≡ length r.before + 1
    size' = ground (arith, size)

    rest : length r.behind ≡ 0
    rest = omega (arith, ap length r.whole, length-append r.before (r.here ∷ r.behind), size')

    whole : bs ≡ s.before ++ (s.here ∷ (r.before ++ r.here ∷ []))
    whole =
        s.whole
        ∙ ap (λ (zs : List BucketKey). s.before ++ s.here ∷ zs)
            (r.whole
              ∙ ap (λ (zs : List BucketKey). r.before ++ r.here ∷ zs) (nil_of_length r.behind rest))

    counted : t.k ≡ suc (length s.before)
    counted = omega arith

    firsts : take t.k bs ≡ s.before ++ s.here ∷ []
    firsts = rw (whole, counted) (take-first s.before (r.before ++ r.here ∷ []) s.here)

    dropped :
        (ys : List BucketKey) → ys ≡ r.before → (r.before ≡ []) ⊎ (t.k + length r.before < t.n)
    dropped [] e = inl (sym e)
    dropped (y ∷ ys) e = inr (ground (arith, size, size', ap length e))

-- For 1 ≤ k and bounds within 32 bits, from the start of a window: `period k n` objects (n of
-- them if k < n, and k + 1 otherwise) yield exactly one action, which hands over the first k of
-- them in order; the others are dropped, and the next window starts.
pub feed-window :
    (t : RedundantTrigger) (bs : List BucketKey)
    → IsFresh t
    → 1 ≤ t.k
    → t.k + 1 < u32
    → t.n < u32
    → length bs ≡ period t.k t.n
    → feed action_for_new_object t bs ≡ (
      t,
      record { function = t.base.target_function; session_keys = map session_key (take t.k bs) }
          ∷ [],
    )
feed-window t bs f h w w' len =
    let s = Split-at (t.k - 1) bs (ground arith) in
    window_of_Split t bs f h w w' len s (
      Split-at (length s.behind - 1) s.behind
        (ground (arith, ap length s.whole, length-append s.before (s.here ∷ s.behind), s.size)))

-- ===== src/Trigger/Feed.antt =====
-- trigger.hpp: `action_for_new_object` of a trigger class over a sequence of
-- events, which are objects or timed objects.
use mathlib.Core.List.{append-nil, append_assoc}
use demeter.Prelude.{
  All, All-append, Str, nat_eq, str_eq, ◌≡◌, refl, sym, List, [], ◌∷◌, ◌++◌, map, arith,
}
use demeter.Trigger.{TriggerAction}

-- The state after the objects, and the actions on the way.
unfoldable pub feed {ℓ} :
    {T : Type ℓ} {E : Type 0}
    → (T → E → T × List TriggerAction)
    → T
    → List E
    → T × List TriggerAction
feed arrive t [] = (t, [])
feed arrive t (b ∷ bs) =
    let (t', actions) = arrive t b in
    let (last, later) = feed arrive t' bs in (last, actions ++ later)

-- The objects that actions hand over, in order.
unfoldable pub sent : List TriggerAction → List (Str × Str)
sent [] = []
sent (a ∷ actions) = a.session_keys ++ sent actions

pub sent-append : (xs ys : List TriggerAction) → sent (xs ++ ys) ≡ sent xs ++ sent ys
unfolding sent
sent-append [] ys = refl
sent-append (x ∷ xs) ys = simp (sent-append xs ys, append_assoc)

pub feed-append {ℓ} :
    {T : Type ℓ} {E : Type 0} (arrive : T → E → T × List TriggerAction) (t : T) (bs cs : List E)
    → let r = feed arrive t bs in
      let s = feed arrive r.0 cs in feed arrive t (bs ++ cs) ≡ (s.0, r.1 ++ s.1)
unfolding feed
feed-append arrive t [] cs = refl
feed-append arrive t (b ∷ bs) cs = simp (feed-append arrive (arrive t b).0 bs cs, append_assoc)

-- One object is added to the buffer, or leaves with it; actions satisfy `Ok`.
abbrev pub Keeps {ℓ} :
    {T : Type ℓ}
    → (T → Type 0)
    → (TriggerAction → Type 0)
    → (T → List (Str × Str))
    → List (Str × Str)
    → T × List TriggerAction
    → Type 0
Keeps Inv Ok buffer objects r = (sent r.1 ++ buffer r.0 ≡ objects) × All Ok r.1 × Inv r.0

pub feed-Keeps {ℓ} :
    {T : Type ℓ} {E : Type 0} (arrive : T → E → T × List TriggerAction) (object : E → Str × Str)
    (Inv : T → Type 0) (Ok : TriggerAction → Type 0) (buffer : T → List (Str × Str))
    → ((t : T) (b : E) → Inv t → Keeps Inv Ok buffer (buffer t ++ object b ∷ []) (arrive t b))
    → (t : T) (bs : List E) → Inv t
    → Keeps Inv Ok buffer (buffer t ++ map object bs) (feed arrive t bs)
unfolding feed sent
feed-Keeps arrive object Inv Ok buffer step t [] h = (sym (append-nil _), tt, h)
feed-Keeps arrive object Inv Ok buffer step t (b ∷ bs) h =
    let (kept, oks, inv) = step t b h in
    let (kept', oks', inv') = feed-Keeps arrive object Inv Ok buffer step (arrive t b).0 bs inv in
    (
      rw (
        sent-append (arrive t b).1 (feed arrive (arrive t b).0 bs).1,
        append_assoc,
        kept',
        ← append_assoc,
        kept,
        append_assoc,
      ),
      All-append Ok _ _ oks oks',
      inv',
    )

-- To put runs together.
module _ {ℓ} {T : Type ℓ} {E : Type 0} (arrive : T → E → T × List TriggerAction) where
  pub feed_then :
      (t u : T) {v : T} (bs cs : List E) (xs ys : List TriggerAction)
      → feed arrive t bs ≡ (u, xs)
      → feed arrive u cs ≡ (v, ys)
      → feed arrive t (bs ++ cs) ≡ (v, xs ++ ys)
  feed_then t u bs cs xs ys p q = ground (arith, feed-append arrive t bs cs)

  pub feed_first :
      (t u : T) {v : T} (b : E) (bs : List E) (xs ys : List TriggerAction)
      → arrive t b ≡ (u, xs)
      → feed arrive u bs ≡ (v, ys)
      → feed arrive t (b ∷ bs) ≡ (v, xs ++ ys)
  unfolding feed
  feed_first t u b bs xs ys p q = rw (p, q)

  pub feed_last :
      (t : T) {u : T} (b : E) (xs : List TriggerAction)
      → arrive t b ≡ (u, xs)
      → feed arrive t (b ∷ []) ≡ (u, xs)
  unfolding feed
  feed_last t b xs p = rw p (rw append-nil)

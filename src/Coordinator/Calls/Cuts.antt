-- ===== src/Coordinator/Calls/Cuts.antt =====
-- pheromone/src/coordinator/func_call_handler.cpp: the loop that cuts the requests of a batch into
-- one call for each node.
use mathlib.Core.List.{append_assoc}
use demeter.Prelude.{
  nat_eqb, nat_eqb_iff, Bool-cases, length, take, length-append, Map, Str, nat_eq, str_eq, ℕ, ◌+◌,
  ◌<◌, ◌≡◌, refl, ap, ◌⊎◌, inl, inr, some, List, [], ◌∷◌, ◌++◌, arith,
}
use demeter.Coordinator.{FunctionRequest, FunctionCall}
use demeter.Coordinator.Calls.{cut_requests}
use demeter.Coordinator.Calls.Rounds.{sum}
use demeter.Coordinator.Calls.Leading.{Leading, AllZero}

AllZero-sum : (loads : List ℕ) → AllZero loads → sum loads ≡ 0
AllZero-sum [] z = refl
AllZero-sum (l ∷ ls) z = omega (arith, z.0, AllZero-sum ls z.1)

module _ {D : Type 0} where
  -- The requests of all calls, in order.
  abbrev pub requests_of : Map Str (FunctionCall D) → List (FunctionRequest D)
  requests_of [] = []
  requests_of ((node, call) ∷ calls) = call.requests ++ requests_of calls

  -- The calls go to the first nodes, one to each, with as many requests as the node's load; the
  -- nodes behind them have no load.
  abbrev pub Assigned : Map Str (FunctionCall D) → List Str → List ℕ → Type 0
  Assigned [] nodes loads = sum loads ≡ 0
  Assigned ((node, call) ∷ calls) (n ∷ ns) (l ∷ ls) =
      (node ≡ n) × (length call.requests ≡ l) × Assigned calls ns ls
  Assigned _ _ _ = ⊥

  -- The call that is being filled has room for more requests.
  abbrev Room : List (FunctionRequest D) → List ℕ → Type 0
  Room cur [] = length cur ≡ 0
  Room cur (l ∷ ls) = (length cur ≡ 0) ⊎ (length cur < l)

  pub Room-nil : (routed : FunctionCall D) (loads : List ℕ) → Room (take 0 routed.requests) loads
  Room-nil routed [] = refl
  Room-nil routed (l ∷ ls) = inl refl

  Room-done :
      (cur : List (FunctionRequest D)) (loads : List ℕ)
      → Room cur loads
      → sum loads ≡ length cur
      → cur ≡ []
  Room-done [] loads room all = refl
  Room-done (r ∷ cur) [] room all = absurd (omega (arith, room))
  Room-done (r ∷ cur) (l ∷ ls) room all = absurd (ground (arith, room, all))

  -- With loads that are positive up to some node and 0 behind it, and that add up to the number of
  -- requests, the loop ends, sends every request once and in order, and gives each node its load.
  pub cut_requests-all :
      (routed : FunctionCall D) (cur reqs : List (FunctionRequest D)) (loads : List ℕ)
      (nodes : List Str)
      → Leading loads
      → length loads ≡ length nodes
      → sum loads ≡ length cur + length reqs
      → Room cur loads
      → (calls : Map Str (FunctionCall D)) × (cut_requests routed cur loads nodes reqs ≡ some calls)
        × (requests_of calls ≡ cur ++ reqs)
        × Assigned calls nodes loads
  unfolding cut_requests
  cut_requests-all routed cur [] loads nodes lead same all room =
      let empty : cur ≡ [] = Room-done cur loads room (omega (arith, all)) in
      ([], refl, rw empty, omega (arith, all, ap length empty))
  cut_requests-all routed cur (req ∷ reqs) [] nodes lead same all room = absurd (omega (arith, all))
  cut_requests-all routed cur (req ∷ reqs) (l ∷ ls) [] lead same all room =
      absurd (omega (arith, same))
  cut_requests-all routed cur (req ∷ reqs) (l ∷ ls) (n ∷ ns) (inr zeros) same all room =
      absurd (omega (arith, all, AllZero-sum (l ∷ ls) zeros))
  cut_requests-all routed cur (req ∷ reqs) (l ∷ ls) (n ∷ ns) (inl (positive, lead)) same all room =
      elim (Bool-cases (nat_eqb (length (cur ++ req ∷ [])) l)) [
        | inl full ↦
            let (calls, ends, whole, assigned) =
              cut_requests-all routed [] reqs ls ns lead (omega (arith, same))
                (ground (arith, all, full, longer)) (Room-nil routed ls) in
            (
              (n, record routed { requests = cur ++ req ∷ [] }) ∷ calls,
              rw (cut_requests, full, ends),
              cc (whole, append_assoc cur (req ∷ []) reqs),
              (refl, (nat_eqb_iff (length (cur ++ req ∷ [])) l).0 full, assigned),
            )
        | inr more ↦
            let (calls, ends, whole, assigned) =
              cut_requests-all routed (cur ++ req ∷ []) reqs (l ∷ ls) (n ∷ ns)
                (inl (positive, lead)) same (omega (arith, all, longer))
                (inr (ground (arith, more, longer, room, positive))) in
            (
              calls,
              rw (cut_requests, more) ends,
              cc (whole, append_assoc cur (req ∷ []) reqs),
              assigned,
            )
      ]
    where
      longer : length (cur ++ req ∷ []) ≡ length cur + 1
      longer = length-append cur (req ∷ [])

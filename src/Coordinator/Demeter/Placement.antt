-- ===== src/Coordinator/Demeter/Placement.antt =====
-- pheromone/src/coordinator/demeter_scheduler.cpp, `demeter_schedule_function_call`: where the
-- requests of a call go.
use native.Mathlib.Nat.{mod-lt}
use demeter.Prelude.{
  if◌then◌else◌, Bool-cases, length, get_elem?, All, count, count-append, count-map, ltb_ℤ, Map,
  or_default, lookup, insert, update, ◌==◌, Str, nat_eq, str_eq, pos, ℕ, zero, suc, ◌+◌, ◌%◌, ◌<◌,
  ◌≡◌, refl, ap, ◌∙◌, ◌⊎◌, inl, inr, Bool, true, false, not, ◌&&◌, some, List, [], ◌∷◌, ◌++◌, map,
  arith,
}
use demeter.Coordinator.{FunctionRequest, FunctionCall, NodeStatus}
use demeter.Coordinator.Calls.Cuts.{requests_of}
use demeter.Coordinator.Demeter.{
  node_affinity, choose_allocation, Double, DemeterSchedulerConfig, is_source, key_at,
  take_executor, new_status, best_node, pick_node, place_requests, with_allocation, routed_calls,
  demeter_schedule_function_call,
}

-- No node has the empty address.
abbrev pub Named : Map Str NodeStatus → Type 0
Named = All (λ e. (e.0 == []) ≡ false)

-- How many elements satisfy a test, over all nodes.
abbrev pub placed {ℓ} : {A : Type ℓ} → (A → Bool) → Map Str (List A) → ℕ
placed p [] = 0
placed p ((node, xs) ∷ m) = count p xs + placed p m

placed-insert {ℓ} :
    {A : Type ℓ} (p : A → Bool) (node : Str) (xs : List A) (m : Map Str (List A))
    → placed p (insert node xs m) + count p (or_default [] (lookup node m))
      ≡ placed p m + count p xs
unfolding insert lookup
placed-insert p node xs [] = omega arith
placed-insert p node xs ((j, ys) ∷ m) = elim (Bool-cases (j == node)) [
  | inl same ↦ rw same (omega arith)
  | inr other ↦ rw other (omega (arith, placed-insert p node xs m))
]

placed-update {ℓ} :
    {A : Type ℓ} (p : A → Bool) (node : Str) (x : A) (m : Map Str (List A))
    → placed p (update node [] (λ xs. xs ++ x ∷ []) m) ≡ placed p m + (if p x then 1 else 0)
unfolding update
placed-update p node x m = omega (
  arith,
  placed-insert p node (or_default [] (lookup node m) ++ x ∷ []) m,
  count-append p (or_default [] (lookup node m)) (x ∷ []),
)

insert-Named :
    (ip : Str) (s : NodeStatus) (nodes : Map Str NodeStatus)
    → (ip == []) ≡ false
    → Named nodes
    → Named (insert ip s nodes)
unfolding insert
insert-Named ip s [] named h = (named, tt)
insert-Named ip s ((j, t) ∷ nodes) named h = elim (Bool-cases (j == ip)) [
  | inl same ↦ rw (insert, same) (h.0, h.1)
  | inr other ↦ rw (insert, other) (h.0, insert-Named ip s nodes named h.1)
]

insert-nonempty :
    (ip : Str) (s : NodeStatus) (nodes : Map Str NodeStatus) → 0 < length (insert ip s nodes)
unfolding insert
insert-nonempty ip s [] = omega arith
insert-nonempty ip s ((j, t) ∷ nodes) = elim (Bool-cases (j == ip)) [
  | inl same ↦ rw (insert, same) (omega arith)
  | inr other ↦ rw (insert, other) (omega arith)
]

key_at-Named :
    (i : ℕ) (nodes : Map Str NodeStatus)
    → Named nodes
    → i < length nodes
    → (key_at i nodes == []) ≡ false
key_at-Named i [] h lt = absurd (omega (arith, lt))
key_at-Named zero ((ip, s) ∷ nodes) h lt = h.0
key_at-Named (suc i) ((ip, s) ∷ nodes) h lt = key_at-Named i nodes h.1 (omega (arith, lt))

module _ {D : Type 0} (d : Double D) where
  -- What is known of the node that the loop over the nodes finds.
  abbrev pub Free : Str → Map Str NodeStatus → Str → Type 0
  Free source nodes node =
      (i : ℕ) × (status : NodeStatus) × (get_elem? nodes i ≡ some (node, status))
      × (is_source source node ≡ false)
      × (ltb_ℤ (pos 0) status.avail_executors ≡ true)

  Free-later :
      (source : Str) (e : Str × NodeStatus) (nodes : Map Str NodeStatus) (node : Str)
      → Free source nodes node
      → Free source (e ∷ nodes) node
  Free-later source e nodes node (i, status, there, other, free) =
      (suc i, status, there, other, free)

  -- The node that the loop over the nodes finds is one of the nodes, has an executor available and
  -- is not the source of the call; or it is the one that the loop began with.
  pub best_node-Free :
      (source : Str) (score : Str → NodeStatus → D) (nodes : Map Str NodeStatus) (best_score : D)
      (best : Str)
      → (best_node d source score best_score best nodes ≡ best)
        ⊎ Free source nodes (best_node d source score best_score best nodes)
  unfolding best_node
  best_node-Free source score [] best_score best = inl refl
  best_node-Free source score ((ip, status) ∷ nodes) best_score best = elim (Bool-cases better) [
    | inr kept ↦
        rw (best_node, kept)
          (elim (best_node-Free source score nodes best_score best) [
            | inl same ↦ inl same
            | inr free ↦ inr (Free-later source (ip, status) nodes _ free)
          ])
    | inl taken ↦
        rw (best_node, taken)
          (inr (elim (best_node-Free source score nodes (score ip status) ip) [
            | inl same ↦ rw same (0, status, refl, ground (arith, taken), ground (arith, taken))
            | inr free ↦ Free-later source (ip, status) nodes _ free
          ]))
  ]
    where
      better : Bool
      better =
          not (is_source source ip)
          && (ltb_ℤ (pos 0) status.avail_executors && d.less best_score (score ip status))

  module _ (rand_r : ℕ → ℕ × ℕ) (config : DemeterSchedulerConfig D) (source : Str) where
    pick_node-Named :
        (seed : ℕ) (nodes : Map Str NodeStatus) (req : FunctionRequest D)
        → Named nodes
        → 0 < length nodes
        → ((pick_node d rand_r config source seed nodes req).0 == []) ≡ false
    unfolding pick_node
    pick_node-Named seed nodes req h some_node = elim (Bool-cases (best == [])) [
      | inl none_free ↦
          rw (pick_node, none_free)
            (key_at-Named ((rand_r seed).0 % length nodes) nodes h
              (mod-lt (rand_r seed).0 some_node))
      | inr free ↦ rw (pick_node, free) free
    ]
      where
        best : Str
        best =
            best_node d source
              (λ ip status. node_affinity d ip status req (choose_allocation d req config) config)
              d.minus_infinity [] nodes

    -- Of nodes that all have an address, every request goes to exactly one: whatever requests are
    -- counted, as many of them are added to the nodes' lists as there are in the call.
    pub place_requests-all :
        (p : FunctionRequest D → Bool) (seed : ℕ) (nodes : Map Str NodeStatus)
        (reqs : Map Str (List (FunctionRequest D))) (rest : List (FunctionRequest D))
        → Named nodes
        → 0 < length nodes
        → placed p (place_requests d rand_r config source seed nodes reqs rest).0
          ≡ placed p reqs + count p rest
    unfolding place_requests update insert
    place_requests-all p seed nodes reqs [] h some_node = omega arith
    place_requests-all p seed nodes reqs (req ∷ rest) h some_node =
        let named = pick_node-Named seed nodes req h some_node in
        rw (place_requests, named)
          (omega (
            arith,
            placed-update p (pick_node d rand_r config source seed nodes req).0 req reqs,
            place_requests-all p (pick_node d rand_r config source seed nodes req).1
                (update (pick_node d rand_r config source seed nodes req).0 new_status take_executor
                  nodes)
                (update (pick_node d rand_r config source seed nodes req).0 []
                  (λ rs. rs ++ req ∷ []) reqs)
                rest (insert-Named _ _ nodes named h) (insert-nonempty _ _ nodes),
          ))

    routed_calls-count :
        (p : FunctionRequest D → Bool) (call_msg : FunctionCall D)
        (reqs : Map Str (List (FunctionRequest D)))
        → count p (requests_of (routed_calls d rand_r config source call_msg reqs))
          ≡ placed (λ r. p (with_allocation d rand_r config source r)) reqs
    unfolding routed_calls
    routed_calls-count p call_msg [] = refl
    routed_calls-count p call_msg ((node, rs) ∷ reqs) = omega (
      arith,
      count-append p (map (with_allocation d rand_r config source) rs)
          (requests_of (routed_calls d rand_r config source call_msg reqs)),
      count-map p (with_allocation d rand_r config source) rs,
      routed_calls-count p call_msg reqs,
    )

    -- Of an enabled scheduler and nodes that all have an address, the calls hold every request of
    -- the message exactly once, with the resources of its allocation: whatever requests are counted.
    pub demeter_schedule_function_call-all :
        (p : FunctionRequest D → Bool) (seed : ℕ) (nodes : Map Str NodeStatus)
        (call_msg : FunctionCall D)
        → config.enabled ≡ true
        → Named nodes
        → 0 < length nodes
        → count p (
            requests_of
              (demeter_schedule_function_call d rand_r config source seed nodes call_msg).0)
          ≡ count p (map (with_allocation d rand_r config source) call_msg.requests)
    unfolding demeter_schedule_function_call
    demeter_schedule_function_call-all p seed nodes call_msg enabled h some_node =
        ap (λ calls. count p (requests_of calls)) (go nodes refl)
        ∙ omega (
          arith,
          routed_calls-count p call_msg
              (place_requests d rand_r config source seed nodes [] call_msg.requests).0,
          place_requests-all (λ r. p (with_allocation d rand_r config source r)) seed nodes []
              call_msg.requests h some_node,
          count-map p (with_allocation d rand_r config source) call_msg.requests,
        )
      where
        go :
            (ns : Map Str NodeStatus)
            → nodes ≡ ns
            → (demeter_schedule_function_call d rand_r config source seed nodes call_msg).0
              ≡ routed_calls d rand_r config source call_msg
                  (place_requests d rand_r config source seed nodes [] call_msg.requests).0
        go [] e = absurd (omega (arith, some_node, ap length e))
        go (n ∷ ns) e = cc (enabled, e)

-- ===== src/Coordinator/Calls/Batch.antt =====
-- pheromone/src/coordinator/func_call_handler.cpp, "batch scheduling": what becomes of the requests
-- of a call.
use mathlib.Core.List.{append-nil}
use demeter.Prelude.{
  leb, if◌then◌else◌, leb→le, le→leb, Bool-cases, Ensures, length, count, Map, Str, nat_eq, str_eq,
  ℕ, suc, ◌≤◌, ◌<◌, ◌≡◌, refl, sym, ap, subst, ◌∙◌, inl, inr, Bool, true, false, some, List, [],
  ◌∷◌, map, arith,
}
use demeter.Coordinator.{FunctionRequest, FunctionCall, NodeStatus}
use demeter.Coordinator.Calls.{
  Nodes, no_nodes, scan_nodes, routed_call, split_batch, schedule_batch,
}
use demeter.Coordinator.Calls.Rounds.{sum, deal-Within, Within}
use demeter.Coordinator.Calls.Leading.{Leading, AllZero, deal-Leading}
use demeter.Coordinator.Calls.Cuts.{Room-nil, Assigned, requests_of, cut_requests-all}
use demeter.Coordinator.Calls.Scans.{executors, counts, Scanned, scanned, scanned_executors}

zeros-AllZero : (xs : List (Str × ℕ)) → AllZero (map (λ e. 0) xs)
zeros-AllZero [] = tt
zeros-AllZero (x ∷ xs) = (refl, zeros-AllZero xs)

zeros-sum : (xs : List (Str × ℕ)) → sum (map (λ e. 0) xs) ≡ 0
zeros-sum [] = refl
zeros-sum (x ∷ xs) = omega (arith, zeros-sum xs)

length-map {ℓ} :
    {A : Type ℓ} (f : Str × ℕ → A) (xs : List (Str × ℕ)) → length (map f xs) ≡ length xs
length-map f [] = refl
length-map f (x ∷ xs) = ap suc (length-map f xs)

length-positive : (xs : List (Str × ℕ)) → 0 < sum (counts xs) → 0 < length xs
length-positive [] h = absurd (omega (arith, h))
length-positive (x ∷ xs) h = omega arith

Within-length : (xs ls us : List ℕ) → Within xs ls us → length xs ≡ length us
Within-length [] [] [] w = refl
Within-length (x ∷ xs) (l ∷ ls) (u ∷ us) w = ap suc (Within-length xs ls us w.1)
Within-length [] [] (u ∷ us) w = absurd w
Within-length [] (l ∷ ls) us w = absurd w
Within-length (x ∷ xs) [] us w = absurd w
Within-length (x ∷ xs) (l ∷ ls) [] w = absurd w

count-if {ℓ} :
    {A : Type ℓ} (p : A → Bool) (b : Bool) (xs : List A)
    → count p (if b then xs else []) ≡ (if b then count p xs else 0)
count-if p true xs = refl
count-if p false xs = refl

module _ {D : Type 0} (call_msg : FunctionCall D) where
  -- If the available nodes together have executors for all the requests of a call, the call is cut
  -- into calls that go to the first of these nodes, one to each; they hold every request once, in
  -- order, and no node is given more requests than it has executors.
  pub split_batch-all :
      (n : Nodes)
      → Scanned n
      → 1 ≤ length call_msg.requests
      → length call_msg.requests ≤ n.total_executors
      → (calls : Map Str (FunctionCall D)) × (loads : List ℕ) × (split_batch call_msg n
          ≡ some calls)
        × (requests_of calls ≡ call_msg.requests)
        × Assigned calls (map (λ e. e.0) n.avail_nodes) loads
        × Within loads (map (λ e. 0) n.avail_nodes) (counts n.avail_nodes)
  unfolding split_batch
  split_batch-all n ok some_requests enough =
      let (loads, dealing, all, within) =
        deal-Within req_num avail zeros 0 nonempty same (omega (arith, enough, ok.total)) in
      let lead : Leading loads = subst (Ensures Leading) dealing (
        deal-Leading req_num avail zeros 0 nonempty same
          (zeros-AllZero n.avail_nodes, ok.positive)) in
      let (calls, ends, whole, assigned) =
        cut_requests-all (routed_call call_msg) [] call_msg.requests loads
          (map (λ e. e.0) n.avail_nodes) lead
          (omega (
            arith,
            Within-length loads zeros avail within,
            length-map (λ e. e.1) n.avail_nodes,
            length-map (λ e. e.0) n.avail_nodes,
          ))
          (omega (arith, all, zeros-sum n.avail_nodes)) (Room-nil call_msg loads) in
      (calls, loads, rw (split_batch, dealing) ends, whole, assigned, within)
    where
      req_num : ℕ
      req_num = length call_msg.requests

      avail : List ℕ
      avail = counts n.avail_nodes

      zeros : List ℕ
      zeros = map (λ e. 0) n.avail_nodes

      nonempty : 0 < length avail
      nonempty = omega (
        arith,
        length-map (λ e. e.1) n.avail_nodes,
        length-positive n.avail_nodes (omega (arith, some_requests, enough, ok.total)),
      )

      same : length zeros ≡ length avail
      same = length-map (λ e. 0) n.avail_nodes ∙ sym (length-map (λ e. e.1) n.avail_nodes)

  -- What the branches make, before the map of calls is walked.
  scheduled_requests :
      (nodes : Map Str NodeStatus)
      → 1 ≤ length call_msg.requests
      → (calls : Map Str (FunctionCall D)) × (schedule_batch call_msg nodes ≡ some calls)
        × (requests_of calls ≡ (
            if leb (length call_msg.requests) (executors call_msg.source nodes)
            then call_msg.requests
            else []))
  unfolding schedule_batch
  scheduled_requests nodes some_requests = elim (Bool-cases (leb req_num n.max_executors)) [
    | inl one ↦ (
      (n.node_with_max_executors, call_msg) ∷ [],
      rw (schedule_batch, one),
      append-nil call_msg.requests
          ∙ rw (
              le→leb req_num (executors call_msg.source nodes)
                (omega (arith, leb→le req_num n.max_executors one, ok.bounded, counted))),
    )
    | inr larger ↦ elim (Bool-cases (leb req_num n.total_executors)) [
      | inl many ↦
          let (calls, loads, splits, whole, assigned, within) =
            split_batch-all n ok some_requests (leb→le req_num n.total_executors many) in
          (calls, rw (schedule_batch, larger, many) splits, whole ∙ rw (sym counted, many))
      | inr refused ↦ ([], rw (schedule_batch, larger, refused), rw (sym counted, refused))
    ]
  ]
    where
      req_num : ℕ
      req_num = length call_msg.requests

      n : Nodes
      n = scan_nodes call_msg.source no_nodes nodes

      ok : Scanned n
      ok = scanned call_msg.source nodes

      counted : n.total_executors ≡ executors call_msg.source nodes
      counted = scanned_executors call_msg.source nodes

  -- A batch that is too large for the nodes is not scheduled.
  pub schedule_batch-refused :
      (nodes : Map Str NodeStatus)
      → leb (length call_msg.requests) (executors call_msg.source nodes) ≡ false
      → schedule_batch call_msg nodes ≡ some []
  unfolding schedule_batch
  schedule_batch-refused nodes large =
      let n = scan_nodes call_msg.source no_nodes nodes in
      let counted = scanned_executors call_msg.source nodes in
      let bounded = (scanned call_msg.source nodes).bounded in
      let more : leb (length call_msg.requests) n.total_executors ≡ false = rw counted large in
      let most : leb (length call_msg.requests) n.max_executors ≡ false =
        ground (arith, large, counted, bounded) in
      rw (schedule_batch, most, more)

  -- If the nodes other than the source have executors for all the requests of a call, then every
  -- request is sent exactly once, in whatever order the calls are; otherwise none is sent: whatever
  -- requests are counted. The call has a request.
  pub schedule_batch-all :
      (nodes : Map Str NodeStatus)
      → 1 ≤ length call_msg.requests
      → (calls : Map Str (FunctionCall D)) × (schedule_batch call_msg nodes ≡ some calls)
        × ((p : FunctionRequest D → Bool)
            → count p (requests_of calls) ≡ (
                if leb (length call_msg.requests) (executors call_msg.source nodes)
                then count p call_msg.requests
                else 0))
  schedule_batch-all nodes some_requests =
      let (calls, ends, whole) = scheduled_requests nodes some_requests in
      (
        calls,
        ends,
        λ p.
            ap (count p) whole
            ∙ count-if p (leb (length call_msg.requests) (executors call_msg.source nodes))
                call_msg.requests,
      )

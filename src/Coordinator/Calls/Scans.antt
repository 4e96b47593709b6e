-- ===== src/Coordinator/Calls/Scans.antt =====
-- pheromone/src/coordinator/func_call_handler.cpp: what the loop over the nodes finds.
use demeter.Prelude.{
  ltb, if◌then◌else◌, ltb→lt, Bool-cases, if-both, ℤ, pos_part, Map, Str, nat_eq, str_eq, ℕ, ◌+◌,
  ◌≤◌, ◌<◌, ◌≡◌, refl, inl, inr, List, [], ◌∷◌, ◌++◌, map, arith,
}
use demeter.Coordinator.{NodeStatus}
use demeter.Coordinator.Demeter.{is_source}
use demeter.Coordinator.Calls.{Nodes, see_node, no_nodes, scan_nodes}
use demeter.Coordinator.Calls.Rounds.{sum}
use demeter.Coordinator.Calls.Leading.{AllPositive}

-- The executors that are available at all nodes but the source.
abbrev pub executors : Str → Map Str NodeStatus → ℕ
executors source [] = 0
executors source ((ip, status) ∷ nodes) =
    (if is_source source ip then 0 else pos_part status.avail_executors) + executors source nodes

abbrev pub counts : List (Str × ℕ) → List ℕ
counts = map (λ e. e.1)

-- What the loop over the nodes keeps true of its variables.
pub record Scanned (n : Nodes) : Type 0 where
  pub total : n.total_executors ≡ sum (counts n.avail_nodes)
  pub positive : AllPositive (counts n.avail_nodes)
  pub bounded : n.max_executors ≤ n.total_executors

sum-snoc : (xs : List (Str × ℕ)) (e : Str × ℕ) → sum (counts (xs ++ e ∷ [])) ≡ sum (counts xs) + e.1
sum-snoc [] e = omega arith
sum-snoc (x ∷ xs) e = omega (arith, sum-snoc xs e)

AllPositive-snoc :
    (xs : List (Str × ℕ)) (e : Str × ℕ)
    → AllPositive (counts xs)
    → 0 < e.1
    → AllPositive (counts (xs ++ e ∷ []))
AllPositive-snoc [] e p h = (h, tt)
AllPositive-snoc (x ∷ xs) e p h = (p.0, AllPositive-snoc xs e p.1 h)

see_node-Scanned : (ip : Str) (avail : ℤ) (n : Nodes) → Scanned n → Scanned (see_node ip avail n)
see_node-Scanned ip avail n ok = elim (Bool-cases (ltb 0 (pos_part avail))) [
  | inl free ↦ record {
    total = rw free (omega (arith, ok.total, sum-snoc n.avail_nodes (ip, pos_part avail)));
    positive = rw free (
        AllPositive-snoc n.avail_nodes (ip, pos_part avail) ok.positive
          (ltb→lt 0 (pos_part avail) free));
    bounded = ground (arith, ok.bounded);
  }
  | inr busy ↦ record {
    total = rw busy (ground (arith, busy, ok.total));
    positive = rw busy ok.positive;
    bounded = ground (arith, ok.bounded);
  }
]

scan_nodes-Scanned :
    (source : Str) (nodes : Map Str NodeStatus) (n : Nodes)
    → Scanned n
    → Scanned (scan_nodes source n nodes)
unfolding scan_nodes
scan_nodes-Scanned source [] n ok = ok
scan_nodes-Scanned source ((ip, status) ∷ nodes) n ok =
    scan_nodes-Scanned source nodes
      (if is_source source ip then n else see_node ip status.avail_executors n)
      (if-both Scanned (is_source source ip) n (see_node ip status.avail_executors n) ok
        (see_node-Scanned ip status.avail_executors n ok))

scan_nodes-executors :
    (source : Str) (nodes : Map Str NodeStatus) (n : Nodes)
    → (scan_nodes source n nodes).total_executors ≡ n.total_executors + executors source nodes
unfolding scan_nodes
scan_nodes-executors source [] n = omega arith
scan_nodes-executors source ((ip, status) ∷ nodes) n = elim (Bool-cases (is_source source ip)) [
  | inl skipped ↦ rw (scan_nodes, skipped) (omega (arith, scan_nodes-executors source nodes n))
  | inr seen ↦
      rw (scan_nodes, seen)
        (omega (arith, scan_nodes-executors source nodes (see_node ip status.avail_executors n)))
]

pub scanned :
    (source : Str) (nodes : Map Str NodeStatus) → Scanned (scan_nodes source no_nodes nodes)
scanned source nodes =
    scan_nodes-Scanned source nodes no_nodes
      (record { total = refl; positive = tt; bounded = omega arith })

pub scanned_executors :
    (source : Str) (nodes : Map Str NodeStatus)
    → (scan_nodes source no_nodes nodes).total_executors ≡ executors source nodes
scanned_executors source nodes = omega (arith, scan_nodes-executors source nodes no_nodes)

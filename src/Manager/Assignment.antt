-- ===== src/Manager/Assignment.antt =====
-- pheromone/src/manager/manager_server.cpp: the coordinator of an application.
use native.Mathlib.Nat.{mod-lt}
use demeter.Prelude.{
  length, is_nil, get_elem?, Map, or_default, lookup, insert, lookup-insert, Str, str_eqb_iff,
  nat_eq, str_eq, eq_refl, ℕ, zero, suc, ◌%◌, ◌<◌, ◌≡◌, refl, sym, ap, subst, ◌∙◌, Bool, false,
  Option, none, some, List, [], ◌∷◌, arith,
}
use demeter.Manager.{
  assign, CoordIp, add_coord, Manager, CoordQuery, CoordResponse, Request, coord_sync, coord_query,
  sync, pick_coord, with_app, response_of, query, step, run,
}

add_coord-not_nil : (c : CoordIp) (ds : List CoordIp) → is_nil (add_coord c ds) ≡ false
unfolding add_coord
add_coord-not_nil c [] = refl
add_coord-not_nil c (d ∷ ds) = ground arith

get_elem?-some :
    {A : Type 0} (xs : List A) (i : ℕ) → i < length xs → (a : A) × (get_elem? xs i ≡ some a)
get_elem?-some [] i h = absurd (omega (arith, h))
get_elem?-some (x ∷ xs) zero h = (x, refl)
get_elem?-some (x ∷ xs) (suc i) h = get_elem?-some xs i (omega (arith, h))

not_nil {ℓ} : {A : Type ℓ} (xs : List A) → is_nil xs ≡ false → 0 < length xs
not_nil [] h = absurd (ground (arith, h))
not_nil (x ∷ xs) h = omega arith

-- The application has that coordinator, and there are coordinators.
pub record Assigned (app : Str) (coord : Str × ℕ) (m : Manager) : Type 0 where
  pub entry : lookup app m.app_coord_map ≡ some coord
  pub known : is_nil m.coord_ips ≡ false

module _ (rand_r : ℕ → ℕ × ℕ) (external_user : Bool) where
  pick_coord-some :
      (m : Manager)
      → is_nil m.coord_ips ≡ false
      → (r : (Str × ℕ) × ℕ) × (pick_coord rand_r external_user m ≡ some r)
  unfolding pick_coord
  pick_coord-some m known =
      let picked =
        get_elem?-some m.coord_ips ((rand_r m.seed).0 % length m.coord_ips)
          (mod-lt (rand_r m.seed).0 (not_nil m.coord_ips known)) in
      rw (picked.1) (_, refl)

  insert-kept :
      (app other : Str) (coord c : Str × ℕ) (m : Map Str (Str × ℕ))
      → lookup app m ≡ none
      → lookup other m ≡ some c
      → lookup other (insert app coord m) ≡ some c
  insert-kept app other coord c m missing entry = ground (
    arith,
    lookup-insert app other coord m,
    λ (e : app ≡ other). sym missing ∙ ap (λ k. lookup k m) e,
    str_eqb_iff app other,
    entry,
    missing,
  )

  -- An application that is asked for has a coordinator from then on, and others keep theirs.
  Assigns : Str → Manager → Option Manager → Type 0
  Assigns app m o =
      (m' : Manager) × (coord : Str × ℕ) × (o ≡ some m')
      × Assigned app coord m'
      × ((other : Str) (c : Str × ℕ) → Assigned other c m → Assigned other c m')

  assign-Assigns :
      (app : Str) (found : Option (Str × ℕ)) (m : Manager)
      → is_nil m.coord_ips ≡ false
      → lookup app m.app_coord_map ≡ found
      → Assigns app m (assign rand_r external_user app found m)
  unfolding assign Assigns
  assign-Assigns app (some coord) m known found =
      (m, coord, refl, record { entry = found; known = known }, λ other c a. a)
  assign-Assigns app none m known missing =
      let picked = pick_coord-some m known in
      rw (picked.1) (
        _,
        picked.0.0,
        refl,
        record {
          entry = lookup-insert app app picked.0.0 m.app_coord_map ∙ rw (eq_refl app) refl;
          known = known;
        },
        λ other c a. record {
          entry = insert-kept app other picked.0.0 c m.app_coord_map missing a.entry;
          known = known;
        },
      )

  -- The response to a query is that of the application's entry.
  query-Assigned :
      (q : CoordQuery) (coord : Str × ℕ) (m m' : Manager)
      → assign rand_r external_user q.application (lookup q.application m.app_coord_map) m ≡ some m'
      → Assigned q.application coord m'
      → query rand_r external_user q m ≡ some (m', response_of q coord)
  unfolding query with_app
  query-Assigned q coord m m' e a =
      rw e (ap (λ o. some (m', response_of q (or_default ([], 0) o))) a.entry)

  assign-again :
      (app : Str) (coord : Str × ℕ) (m : Manager)
      → Assigned app coord m
      → assign rand_r external_user app (lookup app m.app_coord_map) m ≡ some m
  unfolding assign
  assign-again app coord m a = rw (a.entry) refl

  -- What every message does for an application that has a coordinator.
  step-Assigned :
      (request : Request) (app : Str) (coord : Str × ℕ) (m : Manager)
      → Assigned app coord m
      → (r : Manager × List CoordResponse) × (step rand_r external_user request m ≡ some r)
        × Assigned app coord r.0
  unfolding step sync query with_app Assigns
  step-Assigned (coord_sync c) app coord m a =
      (_, refl, record { entry = a.entry; known = add_coord-not_nil c m.coord_ips })
  step-Assigned (coord_query q) app coord m a =
      let assigned =
        assign-Assigns q.application (lookup q.application m.app_coord_map) m a.known refl in
      rw (assigned.2) (_, refl, assigned.4 app coord a)

  run-Assigned :
      (requests : List Request) (app : Str) (coord : Str × ℕ) (m : Manager)
      → Assigned app coord m
      → (r : Manager × List CoordResponse) × (run rand_r external_user requests m ≡ some r)
        × Assigned app coord r.0
  unfolding run
  run-Assigned [] app coord m a = (_, refl, a)
  run-Assigned (request ∷ requests) app coord m a =
      let first = step-Assigned request app coord m a in
      let later = run-Assigned requests app coord first.0.0 first.2 in
      rw (first.1, later.1) (_, refl, later.2)

  -- A query is answered if some coordinator has reported itself, and whatever messages follow, every
  -- later query for the same application is answered with the same coordinator.
  pub query-sticky :
      (q later : CoordQuery) (requests : List Request) (m : Manager)
      → is_nil m.coord_ips ≡ false
      → later.application ≡ q.application
      → (coord : Str × ℕ) × (m1 m2 m3 : Manager) × (sent : List CoordResponse) × (query rand_r
            external_user q m
          ≡ some (m1, response_of q coord))
        × (run rand_r external_user requests m1 ≡ some (m2, sent))
        × (query rand_r external_user later m2 ≡ some (m3, response_of later coord))
  unfolding Assigns
  query-sticky q later requests m known e =
      let first =
        assign-Assigns q.application (lookup q.application m.app_coord_map) m known refl in
      let rest = run-Assigned requests q.application first.1 first.0 first.3 in
      let still = subst (λ app. Assigned app first.1 rest.0.0) (sym e) rest.2 in
      (
        first.1,
        first.0,
        rest.0.0,
        rest.0.0,
        rest.0.1,
        query-Assigned q first.1 m first.0 first.2 first.3,
        rest.1,
        query-Assigned later first.1 rest.0.0 rest.0.0
            (assign-again later.application first.1 rest.0.0 still) still,
      )

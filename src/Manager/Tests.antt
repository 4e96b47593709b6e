-- ===== src/Manager/Tests.antt =====
-- A concrete manager that knows two coordinators, for the theorem on its queries.
use Prim.Native.String.{String}
use demeter.Prelude.{Str, bytes, nat_eq, str_eq, ℕ, ◌+◌, ◌≡◌, refl, false, some, List, [], ◌∷◌}
use demeter.Manager.{
  CoordIp, CoordQuery, CoordResponse, Manager, Request, coord_sync, coord_query, query, response_of,
  run,
}
use demeter.Manager.Assignment.{query-sticky}

abbrev coord_at : String → CoordIp
coord_at ip = record { public_ip = bytes "198.51.100.7"; private_ip = bytes ip; thread_id = 0 }

abbrev manager : Manager
manager = record {
  app_coord_map = [];
  coord_ips = coord_at "10.0.0.9" ∷ coord_at "10.0.0.8" ∷ [];
  seed = 3;
}

abbrev shop : String → CoordQuery
shop id = record { application = bytes "shop"; request_id = bytes id }

-- A third coordinator, and another application.
abbrev requests : List Request
requests =
    coord_sync (coord_at "10.0.0.7")
    ∷ coord_query (record { application = bytes "mail"; request_id = [] })
    ∷ []

abbrev next_seed : ℕ → ℕ × ℕ
next_seed seed = (seed, seed + 1)

query-sticky_example :
    (coord : Str × ℕ) × (m1 m2 m3 : Manager) × (sent : List CoordResponse) × (query next_seed false
        (shop "1")
        manager
      ≡ some (m1, response_of (shop "1") coord))
    × (run next_seed false requests m1 ≡ some (m2, sent))
    × (query next_seed false (shop "2") m2 ≡ some (m3, response_of (shop "2") coord))
query-sticky_example = query-sticky next_seed false (shop "1") (shop "2") requests manager refl refl

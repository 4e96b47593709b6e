-- ===== src/Manager.antt =====
-- pheromone/src/manager/manager_server.cpp: the manager knows the coordinators, and tells a client which
-- of them an application belongs to.
pub mod Assignment
pub mod Tests
use demeter.Prelude.{
  if◌then◌else◌, ◌>>=◌, length, get_elem?, Map, or_default, lookup, insert, ◌==◌, Str, nat_eq,
  str_eq, ℕ, ◌%◌, Bool, ◌&&◌, Option, none, some, List, [], ◌∷◌, ◌++◌,
}

pub record CoordIp : Type 0 where
  pub public_ip : Str
  pub private_ip : Str
  pub thread_id : ℕ

-- `CoordIp::operator==`
unfoldable pub same_coord : CoordIp → CoordIp → Bool
same_coord a b =
    a.public_ip == b.public_ip && a.private_ip == b.private_ip && a.thread_id == b.thread_id

-- `std::set::insert`, by that equality.
unfoldable pub add_coord : CoordIp → List CoordIp → List CoordIp
unfolding same_coord
add_coord c [] = c ∷ []
add_coord c (d ∷ ds) = let rest = add_coord c ds in if same_coord d c then d ∷ ds else d ∷ rest

pub record CoordQuery : Type 0 where
  pub application : Str
  pub request_id : Str

pub record CoordResponse : Type 0 where
  pub coord_ip : Str
  pub thread_id : ℕ
  pub request_id : Str

-- The variables of `run`.
pub record Manager : Type 0 where
  pub app_coord_map : Map Str (Str × ℕ)
  pub coord_ips : List CoordIp
  pub seed : ℕ

pub data Request : Type 0 where
  coord_sync : CoordIp → Request
  coord_query : CoordQuery → Request

unfoldable pub sync : CoordIp → Manager → Manager
unfolding add_coord
sync c m = record m { coord_ips = add_coord c m.coord_ips }

abbrev pub response_of : CoordQuery → Str × ℕ → CoordResponse
response_of q coord = record { coord_ip = coord.0; thread_id = coord.1; request_id = q.request_id }

module _ (rand_r : ℕ → ℕ × ℕ) (external_user : Bool) where
  -- A coordinator at random; without one, the remainder is by zero.
  unfoldable pub pick_coord : Manager → Option ((Str × ℕ) × ℕ)
  pick_coord m = do
    let (r, seed) = rand_r m.seed
    c ← get_elem? m.coord_ips (r % length m.coord_ips)
    some ((if external_user then c.public_ip else c.private_ip, c.thread_id), seed)

  -- The application's entry, which is made if it is not there.
  unfoldable pub assign : Str → Option (Str × ℕ) → Manager → Option Manager
  unfolding pick_coord
  assign app (some coord) m = some m
  assign app none m = do
    (coord, seed) ← pick_coord m
    some (record m { app_coord_map = insert app coord m.app_coord_map; seed = seed })

  unfoldable pub with_app : Str → Manager → Option Manager
  unfolding assign
  with_app app m = assign app (lookup app m.app_coord_map) m

  unfoldable pub query : CoordQuery → Manager → Option (Manager × CoordResponse)
  unfolding with_app
  query q m = do
    m' ← with_app q.application m
    some (m', response_of q (or_default ([], 0) (lookup q.application m'.app_coord_map)))

  -- One message, and the response to a query.
  unfoldable pub step : Request → Manager → Option (Manager × List CoordResponse)
  unfolding sync query
  step (coord_sync c) m = some (sync c m, [])
  step (coord_query q) m = do (m', resp) ← query q m; some (m', resp ∷ [])

  unfoldable pub run : List Request → Manager → Option (Manager × List CoordResponse)
  unfolding step
  run [] m = some (m, [])
  run (request ∷ requests) m = do
    (m', sent) ← step request m
    (m'', later) ← run requests m'
    some (m'', sent ++ later)

-- ===== src/Coordinator/Objects.antt =====
-- pheromone/src/coordinator/coordinator.cpp, `update_address` and `get_address`, and
-- query_handler.cpp: where the objects are.
pub mod Query
use demeter.Prelude.{
  if◌then◌else◌, add, Map, is_some, lookup, update, Str, nat_eq, str_eq, none, some, List, [], ◌∷◌,
}
use demeter.Names.{BucketKey, BucketKeyAddress, get_bucket_key_from_addr, get_addr_from_bucket_key}
use demeter.Coordinator.{
  Coordinator, KvsError, success, bucket_ne, key_ne, KeyQueryResponse, Outgoing, query_response,
}

-- `map<Bucket, map<Key, set<Address>>>`
abbrev pub AddressMap : Type 0
AddressMap = Map Str (Map Str (List Str))

unfoldable pub update_address : BucketKey → Str → AddressMap → AddressMap
update_address b addr addresses = update b.bucket [] (update b.key [] (add addr)) addresses

pub record GetAddressResult : Type 0 where
  pub error : KvsError
  pub addr : List Str

unfoldable pub get_address : BucketKey → AddressMap → GetAddressResult
get_address b addresses = elim (lookup b.bucket addresses) [
  | none ↦ record { error = key_ne; addr = [] }
  | some keys ↦ elim (lookup b.key keys) [
    | none ↦ record { error = key_ne; addr = [] }
    | some found ↦ record { error = success; addr = found }
  ]
]

-- One round of the first loop: the result for an address, and the error if the loop breaks.
unfoldable pub query_one : AddressMap → BucketKey → GetAddressResult
unfolding get_address
query_one addresses b =
    if is_some (lookup b.bucket addresses)
    then get_address b addresses
    else record { error = bucket_ne; addr = [] }

-- The first loop: the results up to the first error, and the reported error.
unfoldable pub query_all :
    AddressMap → List BucketKeyAddress → List (BucketKey × GetAddressResult) × KvsError
unfolding query_one
query_all addresses [] = ([], success)
query_all addresses (address ∷ rest) =
    let b = get_bucket_key_from_addr address in
    let result = query_one addresses b in
    let later = query_all addresses rest in
    elim result.error [
      | success ↦ ((b, result) ∷ later.0, later.1)
      | error ↦ ((b, result) ∷ [], error)
    ]

abbrev pub new_address : BucketKeyAddress
new_address = record { bucket = []; key = []; session = []; ips = []; payload = [] }

-- The second loop: the addresses are listed only if no error is reported.
unfoldable pub answer : KvsError → List (BucketKey × GetAddressResult) → List BucketKeyAddress
answer error [] = []
answer error ((b, result) ∷ rest) =
    let entry = get_addr_from_bucket_key b new_address in
    elim error [ success ↦ record entry { ips = result.addr } | _ ↦ entry ] ∷ answer error rest

pub record KeyQueryRequest : Type 0 where
  pub response_address : Str
  pub addresses : List BucketKeyAddress
  pub request_id : Str

unfoldable pub query_handler : {B D : Type 0} → Coordinator → KeyQueryRequest → List (Outgoing B D)
unfolding query_all answer
query_handler c request =
    let (results, error) = query_all c.bucket_key_address_map request.addresses in
    query_response request.response_address
      (record { addresses = answer error results; error = error; response_id = request.request_id })
    ∷ []

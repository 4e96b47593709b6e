-- ===== src/Coordinator/Objects/Query.antt =====
-- pheromone/src/coordinator/query_handler.cpp, and coordinator.cpp, `update_address` and
-- `get_address`: what a query answers.
use mathlib.Core.List.{append-nil}
use demeter.Prelude.{
  if◌then◌else◌, Bool-cases, Option-cases, contains, add, contains-add, All, is_some, or_default,
  lookup, update, lookup-update, ◌==◌, Str, str_eqb_iff, nat_eq, str_eq, ◌≡◌, refl, ap, ◌≢◌, inl,
  inr, Bool, true, false, ◌&&◌, ◌||◌, Option, none, some, List, [], ◌∷◌, ◌++◌, map, arith,
}
use demeter.Names.{get_addr_from_bucket_key, BucketKey, BucketKeyAddress, get_bucket_key_from_addr}
use demeter.Coordinator.{bucket_ne, Coordinator, query_response, KvsError, success, key_ne}
use demeter.Coordinator.Objects.{
  query_all, answer, GetAddressResult, new_address, KeyQueryRequest, query_handler, AddressMap,
  update_address, get_address, query_one,
}

-- The addresses of an object, and whether there is an entry for it.
abbrev entry : AddressMap → Str → Str → Option (List Str)
entry addresses bucket key = lookup key (or_default [] (lookup bucket addresses))

get_address-entry :
    (b : BucketKey) (addresses : AddressMap)
    → get_address b addresses ≡ elim (entry addresses b.bucket b.key) [
      | none ↦ record { error = key_ne; addr = [] }
      | some found ↦ record { error = success; addr = found }
    ]
unfolding get_address lookup
get_address-entry b addresses = elim (Option-cases (lookup b.bucket addresses)) [
  | inl missing ↦ rw (missing, get_address)
  | inr (keys, found) ↦ rw (found, get_address)
]

entry-update_address :
    (b : BucketKey) (addr bucket key : Str) (addresses : AddressMap)
    → entry (update_address b addr addresses) bucket key ≡ (
        if b.bucket == bucket && b.key == key
        then some (add addr (or_default [] (entry addresses bucket key)))
        else entry addresses bucket key)
unfolding update_address
entry-update_address b addr bucket key addresses = ground (
  arith,
  str_eqb_iff b.bucket bucket,
  str_eqb_iff b.key key,
  lookup-update b.bucket bucket [] (update b.key [] (add addr)) addresses,
  lookup-update b.key key [] (add addr) (or_default [] (lookup bucket addresses)),
)

-- The address that is recorded for an object is among those that are found for it, with those
-- that were found before; the addresses of every other object stay as they were.
pub get_address-update_address :
    (b b' : BucketKey) (addr a : Str) (addresses : AddressMap)
    → contains (get_address b' (update_address b addr addresses)).addr a ≡ (
        contains (get_address b' addresses).addr a
        || ((b.bucket == b'.bucket && b.key == b'.key) && addr == a))
unfolding contains
get_address-update_address b b' addr a addresses = ground (
  arith,
  get_address-entry b' (update_address b addr addresses),
  get_address-entry b' addresses,
  entry-update_address b addr b'.bucket b'.key addresses,
  contains-add addr a (or_default [] (entry addresses b'.bucket b'.key)),
)

module _ (addresses : AddressMap) where
  -- An object that has an entry.
  abbrev pub is_found : BucketKeyAddress → Bool
  is_found a = is_some (entry addresses a.bucket a.key)

  abbrev pub named : BucketKeyAddress → BucketKeyAddress
  named a = record { bucket = a.bucket; key = a.key; session = a.session; ips = []; payload = [] }

  -- The object with every address that is recorded for it.
  abbrev pub located : BucketKeyAddress → BucketKeyAddress
  located a = record (named a) { ips = or_default [] (entry addresses a.bucket a.key) }

  -- The error of an object that has no entry.
  abbrev pub missing_error : BucketKeyAddress → KvsError
  missing_error a = if is_some (lookup a.bucket addresses) then key_ne else bucket_ne

  query_one-found :
      (a : BucketKeyAddress)
      → is_found a ≡ true
      → query_one addresses (get_bucket_key_from_addr a)
        ≡ record { error = success; addr = or_default [] (entry addresses a.bucket a.key) }
  unfolding query_one get_bucket_key_from_addr lookup
  query_one-found a found =
      ground (arith, found, get_address-entry (get_bucket_key_from_addr a) addresses)

  query_one-missing :
      (a : BucketKeyAddress)
      → is_found a ≡ false
      → query_one addresses (get_bucket_key_from_addr a)
        ≡ record { error = missing_error a; addr = [] }
  unfolding query_one get_bucket_key_from_addr lookup
  query_one-missing a missing =
      ground (arith, missing, get_address-entry (get_bucket_key_from_addr a) addresses)

  abbrev found_result : BucketKeyAddress → BucketKey × GetAddressResult
  found_result a = (
    get_bucket_key_from_addr a,
    record { error = success; addr = or_default [] (entry addresses a.bucket a.key) },
  )

  query_all-found :
      (xs rest : List BucketKeyAddress)
      → All (λ a. is_found a ≡ true) xs
      → query_all addresses (xs ++ rest)
        ≡ (map found_result xs ++ (query_all addresses rest).0, (query_all addresses rest).1)
  unfolding query_all
  query_all-found [] rest found = refl
  query_all-found (a ∷ xs) rest found =
      cc (query_one-found a found.0, query_all-found xs rest found.1)

  answer-found :
      (xs : List BucketKeyAddress) → answer success (map found_result xs) ≡ map located xs
  unfolding answer get_addr_from_bucket_key get_bucket_key_from_addr
  answer-found [] = refl
  answer-found (a ∷ xs) = rw (answer, answer-found xs)

  query_all_found :
      (xs : List BucketKeyAddress)
      → All (λ a. is_found a ≡ true) xs
      → query_all addresses xs ≡ (map found_result xs, success)
  unfolding query_all
  query_all_found xs found =
      cc (query_all-found xs [] found, append-nil xs, append-nil (map found_result xs))

  query_all_stop :
      (a : BucketKeyAddress) (after : List BucketKeyAddress)
      → is_found a ≡ false
      → query_all addresses (a ∷ after) ≡ (
        (get_bucket_key_from_addr a, record { error = missing_error a; addr = [] }) ∷ [],
        missing_error a,
      )
  unfolding query_all
  query_all_stop a after missing = elim (Bool-cases (is_some (lookup a.bucket addresses))) [
    | inl bucket ↦ cc (query_one-missing a missing, bucket)
    | inr no_bucket ↦ cc (query_one-missing a missing, no_bucket)
  ]

  -- The first object that is not known ends the loop.
  query_all_missing :
      (before after : List BucketKeyAddress) (a : BucketKeyAddress)
      → All (λ x. is_found x ≡ true) before
      → is_found a ≡ false
      → query_all addresses (before ++ a ∷ after) ≡ (
        map found_result before
            ++ (get_bucket_key_from_addr a, record { error = missing_error a; addr = [] }) ∷ [],
        missing_error a,
      )
  unfolding query_all
  query_all_missing before after a found missing =
      cc (query_all-found before (a ∷ after) found, query_all_stop a after missing)

  missing_error_failed : (a : BucketKeyAddress) → missing_error a ≢ success
  missing_error_failed a e = ground (arith, e)

  answer_failed :
      (error : KvsError) (results : List (BucketKey × GetAddressResult))
      → error ≢ success
      → answer error results ≡ map (λ r. get_addr_from_bucket_key r.0 new_address) results
  unfolding answer
  answer_failed error [] failed = refl
  answer_failed error ((b, result) ∷ rest) failed =
      cc (entry_failed error failed, answer_failed error rest failed)
    where
      entry_failed :
          (e : KvsError)
          → e ≢ success
          → elim e [
            | success ↦ record (get_addr_from_bucket_key b new_address) { ips = result.addr }
            | _ ↦ get_addr_from_bucket_key b new_address
          ]
            ≡ get_addr_from_bucket_key b new_address
      entry_failed success failed = absurd (failed refl)
      entry_failed bucket_ne failed = refl
      entry_failed key_ne failed = refl
      entry_failed KvsError.session_ne failed = refl
      entry_failed KvsError.kvs_nd failed = refl
      entry_failed KvsError.type_nm failed = refl
      entry_failed KvsError.bucket_exist failed = refl
      entry_failed KvsError.req_timeout failed = refl

  named_results :
      (xs : List BucketKeyAddress) (last : BucketKeyAddress) (r : GetAddressResult)
      → map
          (λ r. get_addr_from_bucket_key r.0 new_address)
          (map found_result xs ++ (get_bucket_key_from_addr last, r) ∷ [])
        ≡ map named (xs ++ last ∷ [])
  unfolding get_addr_from_bucket_key get_bucket_key_from_addr
  named_results [] last r = refl
  named_results (x ∷ xs) last r = ap (◌∷◌ (named x)) (named_results xs last r)

-- A query for objects that are all known is answered with success and, for each object in the
-- order of the query, every address that is recorded for it.
pub query_handler-found :
    {B D : Type 0} (c : Coordinator) (request : KeyQueryRequest)
    → All (λ a. is_found c.bucket_key_address_map a ≡ true) request.addresses
    → query_handler {B = B} {D = D} c request
      ≡ query_response request.response_address (record {
        addresses = map (located c.bucket_key_address_map) request.addresses;
        error = success;
        response_id = request.request_id;
      })
        ∷ []
unfolding query_handler answer
query_handler-found c request found = rw (
  query_handler,
  query_all_found c.bucket_key_address_map request.addresses found,
  answer-found c.bucket_key_address_map request.addresses,
)

-- A query is answered with the error of the first object that is not known, which tells a bucket
-- that has no objects from a key that the bucket does not have; the answer names the objects up to
-- that one, without an address.
pub query_handler-missing :
    {B D : Type 0} (c : Coordinator) (request : KeyQueryRequest)
    (before after : List BucketKeyAddress) (a : BucketKeyAddress)
    → request.addresses ≡ before ++ a ∷ after
    → All (λ x. is_found c.bucket_key_address_map x ≡ true) before
    → is_found c.bucket_key_address_map a ≡ false
    → query_handler {B = B} {D = D} c request
      ≡ query_response request.response_address (record {
        addresses = map (named c.bucket_key_address_map) (before ++ a ∷ []);
        error = missing_error c.bucket_key_address_map a;
        response_id = request.request_id;
      })
        ∷ []
unfolding query_handler answer
query_handler-missing c request before after a split found missing = rw (
  query_handler,
  split,
  query_all_missing c.bucket_key_address_map before after a found missing,
  answer_failed c.bucket_key_address_map (missing_error c.bucket_key_address_map a)
      (map (found_result c.bucket_key_address_map) before
        ++ (
          get_bucket_key_from_addr a,
          record { error = missing_error c.bucket_key_address_map a; addr = [] },
        )
          ∷ [])
      (missing_error_failed c.bucket_key_address_map a),
  named_results c.bucket_key_address_map before a,
)

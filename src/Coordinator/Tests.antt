-- ===== src/Coordinator/Tests.antt =====
-- A concrete cluster, requests and calls, for the theorems on the coordinator.
mod Scheduling
use demeter.Prelude.{
  contains, is_some, lookup, ◌==◌, Str, bytes, str_eqb, str_eqb_iff, nat_eq, str_eq, ℕ, ◌≡◌, refl,
  ◌⊎◌, true, false, not, ◌&&◌, some, List, [], ◌∷◌, map, arith,
}
use demeter.Names.{BucketKeyAddress, BucketKey}
use demeter.Trigger.Tests.{Message}
use demeter.Coordinator.{bucket_ne, Coordinator, success, bucket_exist, query_response}
use demeter.Coordinator.Invariant.{IsConsistent, owner, buckets_of, triggers_of}
use demeter.Coordinator.Buckets.{
  BucketOperationRequest, create_bucket, delete_bucket, bucket_operation, create, delete,
}
use demeter.Coordinator.Buckets.Outcomes.{bucket_operation-error, delete-create, create-delete}
use demeter.Coordinator.Objects.{
  AddressMap, KeyQueryRequest, get_address, update_address, query_handler,
}
use demeter.Coordinator.Objects.Query.{
  located, named, missing_error, get_address-update_address, query_handler-found,
  query_handler-missing,
}
use demeter.Coordinator.Run.{initial}

abbrev shop : Str
shop = bytes "shop"

abbrev cart : Str
cart = bytes "cart"

abbrev create_cart : BucketOperationRequest
create_cart = record {
  operation_type = create_bucket;
  app_name = shop;
  bucket_name = cart;
  request_id = bytes "r1";
  response_address = bytes "tcp://10.0.0.9:1";
}

-- The state in which the bucket exists.
abbrev with_cart : Coordinator
with_cart = record initial {
  app_buckets_map = (shop, cart ∷ []) ∷ [];
  bucket_app_map = (cart, shop) ∷ [];
}

initial-IsConsistent : IsConsistent initial
unfolding lookup
initial-IsConsistent = record {
  owned = λ b a e. absurd (ground (arith, e));
  triggered = λ b n. absurd (n refl);
}

with_cart-IsConsistent : IsConsistent with_cart
unfolding lookup contains
with_cart-IsConsistent = record {
  owned = λ b a e. ground (arith, e, str_eqb_iff cart b, str_eqb_iff shop a, str_eqb_iff a shop);
  triggered = λ b n. absurd (n refl);
}

bucket_operation-error_example :
    ((bucket_operation with_cart create_cart).0 ≡ with_cart)
    × (((create_bucket ≡ create_bucket)
          × ((bucket_operation with_cart create_cart).1 ≡ bucket_exist)
          × (is_some (owner with_cart cart) ≡ true))
        ⊎ ((create_bucket ≡ delete_bucket)
            × ((bucket_operation with_cart create_cart).1 ≡ bucket_ne)
            × (is_some (owner with_cart cart) ≡ false)))
unfolding bucket_operation create lookup str_eqb
bucket_operation-error_example = bucket_operation-error with_cart create_cart (λ e. cc)

delete-create_example :
    ((create initial create_cart).1 ≡ success)
    × ((delete (create initial create_cart).0 create_cart).1 ≡ success)
    × ((b : Str) → owner (delete (create initial create_cart).0 create_cart).0 b ≡ owner initial b)
    × ((b : Str)
        → triggers_of (delete (create initial create_cart).0 create_cart).0 b
          ≡ triggers_of initial b)
    × ((a b : Str)
        → contains (buckets_of (delete (create initial create_cart).0 create_cart).0 a) b
          ≡ (contains (buckets_of initial a) b && not (shop == a && cart == b)))
unfolding lookup
delete-create_example = delete-create initial create_cart initial-IsConsistent refl

create-delete_example :
    ((create (delete with_cart create_cart).0 create_cart).1 ≡ success)
    × (owner (create (delete with_cart create_cart).0 create_cart).0 cart ≡ some shop)
    × (contains (buckets_of (create (delete with_cart create_cart).0 create_cart).0 shop) cart
        ≡ true)
    × (triggers_of (create (delete with_cart create_cart).0 create_cart).0 cart ≡ [])
unfolding lookup str_eqb
create-delete_example = create-delete with_cart create_cart with_cart-IsConsistent refl

abbrev apple : BucketKey
apple = record { bucket = cart; key = bytes "apple"; session = bytes "0123456789abcdef" }

abbrev apple_at : BucketKeyAddress
apple_at = record { bucket = cart; key = bytes "apple"; session = []; ips = []; payload = [] }

abbrev pear_at : BucketKeyAddress
pear_at = record apple_at { key = bytes "pear" }

abbrev addresses : AddressMap
addresses = (cart, (bytes "apple", bytes "10.0.0.1" ∷ []) ∷ []) ∷ []

abbrev stocked : Coordinator
stocked = record with_cart { bucket_key_address_map = addresses }

abbrev query_of : List BucketKeyAddress → KeyQueryRequest
query_of objects = record {
  response_address = bytes "tcp://10.0.0.9:2";
  addresses = objects;
  request_id = bytes "r2";
}

query_handler-found_example :
    query_handler {B = Message} {D = ℕ} stocked (query_of (apple_at ∷ []))
    ≡ query_response (bytes "tcp://10.0.0.9:2") (record {
      addresses = map (located addresses) (apple_at ∷ []);
      error = success;
      response_id = bytes "r2";
    })
      ∷ []
unfolding lookup str_eqb
query_handler-found_example = query_handler-found stocked (query_of (apple_at ∷ [])) (refl, tt)

query_handler-missing_example :
    query_handler {B = Message} {D = ℕ} stocked (query_of (apple_at ∷ pear_at ∷ apple_at ∷ []))
    ≡ query_response (bytes "tcp://10.0.0.9:2") (record {
      addresses = map (named addresses) (apple_at ∷ pear_at ∷ []);
      error = missing_error addresses pear_at;
      response_id = bytes "r2";
    })
      ∷ []
unfolding lookup str_eqb
query_handler-missing_example =
    query_handler-missing stocked (query_of (apple_at ∷ pear_at ∷ apple_at ∷ [])) (apple_at ∷ [])
      (apple_at ∷ []) pear_at refl (refl, tt) refl

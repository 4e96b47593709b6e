-- ===== src/Coordinator/Buckets/Outcomes.antt =====
-- pheromone/src/coordinator/bucket_op_handler.cpp: what a bucket operation does to the maps.
use demeter.Prelude.{
  if◌then◌else◌, Bool-cases, contains, add, remove, contains-add, contains-remove, is_some,
  lookup-insert, lookup-erase, lookup-update, ◌==◌, Str, str_eqb_iff, nat_eq, str_eq, eq_refl, ◌≡◌,
  refl, ◌≢◌, ◌⊎◌, inl, inr, Bool, true, false, not, ◌&&◌, ◌||◌, none, some, [], arith,
}
use demeter.Coordinator.{bucket_ne, bucket_exist, success, Coordinator}
use demeter.Coordinator.Invariant.{IsConsistent, owner, buckets_of, triggers_of}
use demeter.Coordinator.Buckets.{
  BucketOperationType, bucket_operation, create_bucket, delete_bucket, BucketOperationRequest,
  create, delete,
}

create-error :
    (c : Coordinator) (request : BucketOperationRequest)
    → (create c request).1
      ≡ (if is_some (owner c request.bucket_name) then bucket_exist else success)
unfolding create
create-error c request = ground arith

delete-error :
    (c : Coordinator) (request : BucketOperationRequest)
    → (delete c request).1 ≡ (if is_some (owner c request.bucket_name) then success else bucket_ne)
unfolding delete
delete-error c request = ground arith

-- An operation that reports an error changes nothing: it is the creation of a bucket that exists
-- or the deletion of one that does not.
pub bucket_operation-error :
    (c : Coordinator) (request : BucketOperationRequest)
    → (bucket_operation c request).1 ≢ success
    → ((bucket_operation c request).0 ≡ c)
      × (((request.operation_type ≡ create_bucket)
            × ((bucket_operation c request).1 ≡ bucket_exist)
            × (is_some (owner c request.bucket_name) ≡ true))
          ⊎ ((request.operation_type ≡ delete_bucket)
              × ((bucket_operation c request).1 ≡ bucket_ne)
              × (is_some (owner c request.bucket_name) ≡ false)))
unfolding bucket_operation create delete
bucket_operation-error c request n = go request.operation_type refl
  where
    go :
        (o : BucketOperationType)
        → request.operation_type ≡ o
        → ((bucket_operation c request).0 ≡ c)
          × (((request.operation_type ≡ create_bucket)
                × ((bucket_operation c request).1 ≡ bucket_exist)
                × (is_some (owner c request.bucket_name) ≡ true))
              ⊎ ((request.operation_type ≡ delete_bucket)
                  × ((bucket_operation c request).1 ≡ bucket_ne)
                  × (is_some (owner c request.bucket_name) ≡ false)))
    go create_bucket e = elim (Bool-cases (is_some (owner c request.bucket_name))) [
      | inl exists ↦ (
        rw (bucket_operation, e, create, exists),
        inl (e, rw (bucket_operation, e, create, exists), exists),
      )
      | inr fresh ↦ absurd (n (rw (bucket_operation, e, create, fresh)))
    ]
    go delete_bucket e = elim (Bool-cases (is_some (owner c request.bucket_name))) [
      | inl exists ↦ absurd (n (rw (bucket_operation, e, delete, exists)))
      | inr missing ↦ (
        rw (bucket_operation, e, delete, missing),
        inr (e, rw (bucket_operation, e, delete, missing), missing),
      )
    ]
    go (BucketOperationType.unknown code) e = absurd (n (rw (bucket_operation, e)))

module _ (c : Coordinator) (request : BucketOperationRequest) where
  abbrev there : Bool
  there = is_some (owner c request.bucket_name)

  create-owner :
      (b : Str)
      → owner (create c request).0 b
        ≡ (if not there && request.bucket_name == b then some request.app_name else owner c b)
  unfolding create
  create-owner b =
      ground (arith, lookup-insert request.bucket_name b request.app_name c.bucket_app_map)

  delete-owner :
      (b : Str)
      → owner (delete c request).0 b ≡ (if request.bucket_name == b then none else owner c b)
  unfolding delete
  delete-owner b = ground (
    arith,
    str_eqb_iff request.bucket_name b,
    lookup-erase request.bucket_name b c.bucket_app_map,
  )

  create-buckets_of :
      (a b : Str)
      → contains (buckets_of (create c request).0 a) b ≡ (
          contains (buckets_of c a) b
          || (not there && (request.app_name == a && request.bucket_name == b)))
  unfolding create
  create-buckets_of a b = ground (
    arith,
    str_eqb_iff request.app_name a,
    lookup-update request.app_name a [] (add request.bucket_name) c.app_buckets_map,
    contains-add request.bucket_name b (buckets_of c request.app_name),
  )

  delete-buckets_of :
      (a b : Str)
      → contains (buckets_of (delete c request).0 a) b ≡ (
          contains (buckets_of c a) b
          && not (there && (request.app_name == a && request.bucket_name == b)))
  unfolding delete
  delete-buckets_of a b = ground (
    arith,
    str_eqb_iff request.app_name a,
    lookup-update request.app_name a [] (remove request.bucket_name) c.app_buckets_map,
    contains-remove request.bucket_name b (buckets_of c request.app_name),
  )

  create-triggers_of : (b : Str) → triggers_of (create c request).0 b ≡ triggers_of c b
  unfolding create
  create-triggers_of b = ground arith

  delete-triggers_of :
      (b : Str)
      → triggers_of (delete c request).0 b
        ≡ (if there && request.bucket_name == b then [] else triggers_of c b)
  unfolding delete
  delete-triggers_of b = ground (
    arith,
    str_eqb_iff request.bucket_name b,
    lookup-erase request.bucket_name b c.bucket_triggers_map,
  )

module _ (c : Coordinator) (request : BucketOperationRequest) where
  -- In a consistent state, where a bucket without an owner is created and deleted for one application,
  -- both operations report success, every bucket has the owner and the triggers that it had, and
  -- every application lists the buckets that it listed, but for a stale entry of that bucket in the
  -- list of that application, which is removed.
  pub delete-create :
      IsConsistent c
      → owner c request.bucket_name ≡ none
      → ((create c request).1 ≡ success)
        × ((delete (create c request).0 request).1 ≡ success)
        × ((b : Str) → owner (delete (create c request).0 request).0 b ≡ owner c b)
        × ((b : Str) → triggers_of (delete (create c request).0 request).0 b ≡ triggers_of c b)
        × ((a b : Str)
            → contains (buckets_of (delete (create c request).0 request).0 a) b ≡ (
                contains (buckets_of c a) b
                && not (request.app_name == a && request.bucket_name == b)))
  delete-create ok fresh = (
    ground (arith, fresh, create-error c request),
    ground (
      arith,
      fresh,
      create-owner c request request.bucket_name,
      eq_refl request.bucket_name,
      delete-error made request,
    ),
    λ b. ground (
      arith,
      fresh,
      str_eqb_iff request.bucket_name b,
      create-owner c request b,
      delete-owner made request b,
    ),
    λ b. ground (
      arith,
      fresh,
      ok.triggered b,
      str_eqb_iff request.bucket_name b,
      create-triggers_of c request b,
      delete-triggers_of made request b,
    ),
    λ a b. ground (
      arith,
      fresh,
      create-buckets_of c request a b,
      create-owner c request request.bucket_name,
      eq_refl request.bucket_name,
      delete-buckets_of made request a b,
    ),
  )
    where
      made : Coordinator
      made = (create c request).0

  -- A bucket that is deleted and created again belongs to the application that created it, which
  -- lists it, and has no triggers.
  pub create-delete :
      IsConsistent c
      → is_some (owner c request.bucket_name) ≡ true
      → ((create (delete c request).0 request).1 ≡ success)
        × (owner (create (delete c request).0 request).0 request.bucket_name
            ≡ some request.app_name)
        × (contains
              (buckets_of (create (delete c request).0 request).0 request.app_name)
              request.bucket_name
            ≡ true)
        × (triggers_of (create (delete c request).0 request).0 request.bucket_name ≡ [])
  create-delete ok exists = (
    ground (arith, exists, gone, create-error dropped request),
    ground (
      arith,
      exists,
      gone,
      create-owner dropped request request.bucket_name,
      eq_refl request.bucket_name,
    ),
    ground (
      arith,
      exists,
      gone,
      create-buckets_of dropped request request.app_name request.bucket_name,
      eq_refl request.bucket_name,
      eq_refl request.app_name,
    ),
    ground (
      arith,
      exists,
      create-triggers_of dropped request request.bucket_name,
      delete-triggers_of c request request.bucket_name,
      eq_refl request.bucket_name,
    ),
  )
    where
      dropped : Coordinator
      dropped = (delete c request).0

      gone : owner dropped request.bucket_name ≡ none
      gone = ground (arith, delete-owner c request request.bucket_name, eq_refl request.bucket_name)

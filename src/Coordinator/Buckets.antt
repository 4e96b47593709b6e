-- ===== src/Coordinator/Buckets.antt =====
-- pheromone/src/coordinator/bucket_op_handler.cpp: creating and deleting buckets.
pub mod Outcomes
use demeter.Prelude.{
  if◌then◌else◌, add, remove, is_some, lookup, insert, erase, update, Str, nat_eq, str_eq, ℕ, List,
  [], ◌∷◌,
}
use demeter.Coordinator.{
  Coordinator, KvsError, success, bucket_ne, bucket_exist, BucketOperationResponse, Outgoing,
  bucket_response,
}

pub data BucketOperationType : Type 0 where
  create_bucket delete_bucket : BucketOperationType
  unknown : ℕ → BucketOperationType

pub record BucketOperationRequest : Type 0 where
  pub operation_type : BucketOperationType
  pub app_name : Str
  pub bucket_name : Str
  pub request_id : Str
  pub response_address : Str

unfoldable pub create : Coordinator → BucketOperationRequest → Coordinator × KvsError
create c request =
    if is_some (lookup request.bucket_name c.bucket_app_map) then (c, bucket_exist) else (
      record c {
        app_buckets_map = update request.app_name [] (add request.bucket_name) c.app_buckets_map;
        bucket_app_map = insert request.bucket_name request.app_name c.bucket_app_map;
      },
      success,
    )

unfoldable pub delete : Coordinator → BucketOperationRequest → Coordinator × KvsError
delete c request =
    if is_some (lookup request.bucket_name c.bucket_app_map)
    then (
      record c {
        app_buckets_map = update request.app_name [] (remove request.bucket_name) c.app_buckets_map;
        bucket_app_map = erase request.bucket_name c.bucket_app_map;
        bucket_triggers_map =
            if is_some (lookup request.bucket_name c.bucket_triggers_map)
            then erase request.bucket_name c.bucket_triggers_map
            else c.bucket_triggers_map;
      },
      success,
    )
    else (c, bucket_ne)

-- An unknown operation leaves the error at its default, `SUCCESS`.
unfoldable pub bucket_operation : Coordinator → BucketOperationRequest → Coordinator × KvsError
unfolding create delete
bucket_operation c request = elim request.operation_type [
  | create_bucket ↦ create c request
  | delete_bucket ↦ delete c request
  | unknown code ↦ (c, success)
]

unfoldable pub bucket_op_handler :
    {B D : Type 0} → Coordinator → BucketOperationRequest → Coordinator × List (Outgoing B D)
unfolding bucket_operation
bucket_op_handler c request =
    let (c', error) = bucket_operation c request in
    (
      c',
      bucket_response request.response_address (record {
        bucket_name = request.bucket_name;
        response_id = request.request_id;
        error = error;
      })
          ∷ [],
    )

-- ===== src/Names.antt =====
-- pheromone/common/include/common.hpp: object names in shared memory, `BucketKey` and its
-- conversions, `split` and `gen_random`. Strings are byte lists.
pub mod Tests
pub mod RoundTrip
pub mod Split
pub mod Random
use demeter.Prelude.{
  ltb, if◌then◌else◌, length, get_elem?, take, drop, or_default, ◌==◌, Str, bytes, nat_eq, str_eq,
  ℕ, zero, suc, ◌-◌, ◌%◌, Option, none, some, List, [], ◌∷◌, ◌++◌,
}

abbrev pub delimiter : ℕ
delimiter = b'|'

unfoldable pub get_key_session_name : Str → Str → Str
get_key_session_name key session = key ++ session

unfoldable pub get_local_object_name : Str → Str → Str → Str
unfolding get_key_session_name
get_local_object_name bucket key session = bucket ++ delimiter ∷ get_key_session_name key session

pub record BucketKey : Type 0 where
  pub bucket : Str
  pub key : Str
  pub session : Str

-- `find`: the index of the first occurrence, `none` for `npos`.
unfoldable pub find_byte : ℕ → Str → Option ℕ
find_byte c [] = none
find_byte c (x ∷ s) =
    if x == c then some 0 else elim (find_byte c s) [ none ↦ none | some i ↦ some (suc i) ]

-- The constructor `BucketKey(Bucket &bucket, string &session_key)`: the last 16 bytes are the
-- session; of a name that is not longer, key and session stay empty.
unfoldable pub from_session_key : Str → Str → BucketKey
from_session_key bucket session_key =
    let key_size = length session_key in
    if ltb 16 key_size
    then record {
      bucket = bucket;
      key = take (key_size - 16) session_key;
      session = drop (key_size - 16) session_key;
    }
    else record { bucket = bucket; key = []; session = [] }

unfoldable pub shm_key_name : BucketKey → Str
unfolding get_local_object_name
shm_key_name b = get_local_object_name b.bucket b.key b.session

-- `substr(0, npos)` and `substr(npos + 1)` are the whole string.
unfoldable pub get_bucket_key_from_string : Str → BucketKey
unfolding find_byte from_session_key
get_bucket_key_from_string key_name = elim (find_byte delimiter key_name) [
  | none ↦ from_session_key key_name key_name
  | some i ↦ from_session_key (take i key_name) (drop (suc i) key_name)
]

pub record BucketKeyTuple : Type 0 where
  pub bucket : Str
  pub key : Str
  pub session : Str

unfoldable pub get_tuple_from_bucket_key : BucketKey → BucketKeyTuple → BucketKeyTuple
get_tuple_from_bucket_key b tp = record tp { bucket = b.bucket; key = b.key; session = b.session }

unfoldable pub get_bucket_key_from_tuple : BucketKeyTuple → BucketKey
get_bucket_key_from_tuple tuple = record {
  bucket = tuple.bucket;
  key = tuple.key;
  session = tuple.session;
}

-- The protobuf message, with the fields that this code reads and writes.
pub record BucketKeyAddress : Type 0 where
  pub bucket : Str
  pub key : Str
  pub session : Str
  pub ips : List Str
  pub payload : Str

unfoldable pub get_addr_from_bucket_key : BucketKey → BucketKeyAddress → BucketKeyAddress
get_addr_from_bucket_key b addr = record addr {
  bucket = b.bucket;
  key = b.key;
  session = b.session;
}

unfoldable pub get_bucket_key_from_addr : BucketKeyAddress → BucketKey
get_bucket_key_from_addr addr = record {
  bucket = addr.bucket;
  key = addr.key;
  session = addr.session;
}

-- A byte in front of the first of the pieces.
abbrev pub onto_first : ℕ → List Str → List Str
onto_first c [] = (c ∷ []) ∷ []
onto_first c (s ∷ ss) = (c ∷ s) ∷ ss

-- `split`: `getline` ends at the delimiter, and yields nothing where no byte is left.
unfoldable pub split : Str → ℕ → List Str
split [] delim = []
split (c ∷ s) delim = if c == delim then [] ∷ split s delim else onto_first c (split s delim)

abbrev pub alpha_num : Str
alpha_num = bytes "0123456789ABCDEFGHIJKLMNOPQRSTUVWXYZabcdefghijklmnopqrstuvwxyz"

-- The loop of `gen_random`: `rand_r` maps a seed to a value and the next seed.
unfoldable pub gen_random : (ℕ → ℕ × ℕ) → ℕ → ℕ → Str × ℕ
gen_random rand_r seed zero = ([], seed)
gen_random rand_r seed (suc len) =
    let (r, seed') = rand_r seed in
    let (s, last) = gen_random rand_r seed' len in
    (or_default 0 (get_elem? alpha_num (r % length alpha_num)) ∷ s, last)

-- ===== src/Names/RoundTrip.antt =====
-- common.hpp: a shared-memory name is parsed back into the bucket, key and session that it names.
use demeter.Prelude.{
  contains, length, drop, length-append, take-append_length, drop-append_length, Str, nat_eq,
  str_eq, ℕ, suc, ◌-◌, ◌≡◌, refl, ◌≢◌, false, some, [], ◌∷◌, ◌++◌, arith,
}
use demeter.Names.{
  BucketKey, delimiter, find_byte, from_session_key, shm_key_name, get_bucket_key_from_string,
}

find_byte-append :
    (c : ℕ) (s t : Str) → contains s c ≡ false → find_byte c (s ++ c ∷ t) ≡ some (length s)
unfolding find_byte contains
find_byte-append c [] t h = ground arith
find_byte-append c (x ∷ s) t h = ground (arith, find_byte-append c s t)

drop-suc-length : (s t : Str) (c : ℕ) → drop (suc (length s)) (s ++ c ∷ t) ≡ t
drop-suc-length [] t c = refl
drop-suc-length (x ∷ s) t c = drop-suc-length s t c

from_session_key-append :
    (bucket key session : Str)
    → key ≢ []
    → length session ≡ 16
    → from_session_key bucket (key ++ session)
      ≡ record { bucket = bucket; key = key; session = session }
unfolding from_session_key
from_session_key-append bucket [] session h e = absurd (h refl)
from_session_key-append bucket (x ∷ key) session h e =
    let size : length (x ∷ key ++ session) - 16 ≡ length (x ∷ key) =
      omega (arith, length-append key session) in
    ground (
      arith,
      size,
      length-append key session,
      take-append_length (x ∷ key) session,
      drop-append_length (x ∷ key) session,
    )

-- Where the bucket has no delimiter, the key is not empty and the session has 16 bytes, parsing
-- the shared-memory name of an object gives the object's bucket, key and session.
pub get_bucket_key_from_string-shm_key_name :
    (b : BucketKey)
    → contains b.bucket delimiter ≡ false
    → b.key ≢ []
    → length b.session ≡ 16
    → get_bucket_key_from_string (shm_key_name b) ≡ b
unfolding get_bucket_key_from_string shm_key_name
get_bucket_key_from_string-shm_key_name b free h e =
    rw
      (
        find_byte-append delimiter b.bucket (b.key ++ b.session) free,
        get_bucket_key_from_string,
        take-append_length b.bucket (delimiter ∷ b.key ++ b.session),
        drop-suc-length b.bucket (b.key ++ b.session) delimiter,
      )
      (from_session_key-append b.bucket b.key b.session h e)

-- An object whose key is empty is not parsed back: its session is lost, whatever it was.
pub empty_key_loses_session :
    (b : BucketKey)
    → contains b.bucket delimiter ≡ false
    → b.key ≡ []
    → length b.session ≡ 16
    → (get_bucket_key_from_string (shm_key_name b)).session ≡ []
unfolding get_bucket_key_from_string shm_key_name
empty_key_loses_session b free k e = rw (
  find_byte-append delimiter b.bucket (b.key ++ b.session) free,
  get_bucket_key_from_string,
  drop-suc-length b.bucket (b.key ++ b.session) delimiter,
  k,
  from_session_key,
  e,
)

-- ===== src/Names/Tests.antt =====
-- Concrete object names and values, for the theorems on common.hpp.
use demeter.Prelude.{contains, bytes, nat_eq, str_eq, ℕ, ◌+◌, ◌*◌, ◌%◌, ◌≡◌, refl, false, [], ◌∷◌}
use demeter.Names.{
  BucketKey, delimiter, shm_key_name, get_bucket_key_from_string, gen_random, split,
}
use demeter.Names.RoundTrip.{get_bucket_key_from_string-shm_key_name}
use demeter.Names.Split.{implode, split-implode}
use demeter.Names.Random.{generated_session}

abbrev photo : BucketKey
photo = record { bucket = bytes "photos"; key = bytes "cat"; session = bytes "0123456789abcdef" }

-- A generator of pseudo-random numbers: the number, then the next seed.
abbrev next_random : ℕ → ℕ × ℕ
next_random seed = ((seed * 31 + 7) % 32768, (seed * 17 + 3) % 32768)

get_bucket_key_from_string-shm_key_name_example :
    get_bucket_key_from_string (shm_key_name photo) ≡ photo
unfolding contains
get_bucket_key_from_string-shm_key_name_example =
    get_bucket_key_from_string-shm_key_name photo refl (λ e. cc) refl

generated_session_example :
    let session = (gen_random next_random 1 16).0 in
    (contains session delimiter ≡ false)
    × (get_bucket_key_from_string
          (shm_key_name (record { bucket = bytes "photos"; key = bytes "cat"; session = session }))
        ≡ record { bucket = bytes "photos"; key = bytes "cat"; session = session })
unfolding contains
generated_session_example =
    generated_session next_random 1 (bytes "photos") (bytes "cat") refl (λ e. cc)

split-implode_example :
    split (implode delimiter (bytes "one" ∷ [] ∷ bytes "three" ∷ [])) delimiter
    ≡ bytes "one" ∷ [] ∷ bytes "three" ∷ []
unfolding contains
split-implode_example =
    split-implode delimiter (bytes "one" ∷ [] ∷ bytes "three" ∷ []) (refl, (refl, (refl, tt)))

-- ===== src/Names/Random.antt =====
-- common.hpp: the session ids that `gen_random` makes.
use demeter.Prelude.{
  nat_eqb_iff, contains, length, get_elem?, All, or_default, Str, nat_eq, str_eq, eq_refl, ℕ, zero,
  suc, ◌%◌, ◌<◌, ◌≡◌, refl, ap, ◌≢◌, true, false, [], ◌∷◌, arith,
}
use demeter.Names.RoundTrip.{get_bucket_key_from_string-shm_key_name}
use demeter.Names.{delimiter, alpha_num, gen_random, shm_key_name, get_bucket_key_from_string}

abbrev IsAlphaNum : ℕ → Type 0
IsAlphaNum c = contains alpha_num c ≡ true

length-gen_random :
    (rand_r : ℕ → ℕ × ℕ) (seed len : ℕ) → length (gen_random rand_r seed len).0 ≡ len
unfolding gen_random
length-gen_random rand_r seed zero = refl
length-gen_random rand_r seed (suc len) = ap suc (length-gen_random rand_r (rand_r seed).1 len)

get_elem?-contains :
    (xs : Str) (i : ℕ) → i < length xs → contains xs (or_default 0 (get_elem? xs i)) ≡ true
unfolding contains
get_elem?-contains [] i h = elim h [ ]
get_elem?-contains (x ∷ xs) zero h = rw (eq_refl x)
get_elem?-contains (x ∷ xs) (suc i) h = ground (arith, get_elem?-contains xs i)

gen_random-IsAlphaNum :
    (rand_r : ℕ → ℕ × ℕ) (seed len : ℕ) → All IsAlphaNum (gen_random rand_r seed len).0
unfolding gen_random
gen_random-IsAlphaNum rand_r seed zero = tt
gen_random-IsAlphaNum rand_r seed (suc len) = (
  get_elem?-contains alpha_num ((rand_r seed).0 % length alpha_num) (omega arith),
  gen_random-IsAlphaNum rand_r (rand_r seed).1 len,
)

IsAlphaNum-free :
    (c : ℕ) → contains alpha_num c ≡ false → (s : Str) → All IsAlphaNum s → contains s c ≡ false
unfolding contains
IsAlphaNum-free c h [] a = refl
IsAlphaNum-free c h (x ∷ s) a = ground (arith, nat_eqb_iff x c, IsAlphaNum-free c h s a.1)

-- A generated session id never holds the delimiter, whatever `rand_r` returns, and an object whose
-- bucket has no delimiter and whose key is not empty is parsed back from its shared-memory name
-- when its session is a generated id of 16 bytes.
pub generated_session :
    (rand_r : ℕ → ℕ × ℕ) (seed : ℕ) (bucket key : Str)
    → contains bucket delimiter ≡ false
    → key ≢ []
    → let session = (gen_random rand_r seed 16).0 in
      (contains session delimiter ≡ false)
      × (get_bucket_key_from_string
            (shm_key_name (record { bucket = bucket; key = key; session = session }))
          ≡ record { bucket = bucket; key = key; session = session })
unfolding contains
generated_session rand_r seed bucket key free h = (
  IsAlphaNum-free delimiter refl _ (gen_random-IsAlphaNum rand_r seed 16),
  get_bucket_key_from_string-shm_key_name _ free h (length-gen_random rand_r seed 16),
)

-- ===== src/Names/Split.antt =====
-- common.hpp: `split` undoes the joining of values by a delimiter behind each of them.
use demeter.Prelude.{
  contains, All, Str, nat_eq, str_eq, ℕ, ◌≡◌, refl, ap, false, List, [], ◌∷◌, ◌++◌, arith,
}
use demeter.Names.{split}

-- What `std::copy` into an `ostream_iterator` with a delimiter writes.
unfoldable pub implode : ℕ → List Str → Str
implode delim [] = []
implode delim (v ∷ vs) = v ++ delim ∷ implode delim vs

abbrev pub IsFree : ℕ → Str → Type 0
IsFree delim s = contains s delim ≡ false

split-append :
    (delim : ℕ) (s t : Str) → IsFree delim s → split (s ++ delim ∷ t) delim ≡ s ∷ split t delim
unfolding split contains
split-append delim [] t h = ground arith
split-append delim (x ∷ s) t h = ground (arith, split-append delim s t)

-- Values without the delimiter, each written with the delimiter behind it, are split into
-- exactly those values, the empty ones included.
pub split-implode :
    (delim : ℕ) (vs : List Str) → All (IsFree delim) vs → split (implode delim vs) delim ≡ vs
unfolding implode
split-implode delim [] h = unfold split in refl
split-implode delim (v ∷ vs) h =
    rw (split-append delim v (implode delim vs) h.0) (ap (◌∷◌ v) (split-implode delim vs h.1))

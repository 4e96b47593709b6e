-- ===== src/Coordinator/Apps/Decimal.antt =====
-- `std::to_string` and `stoi`, which many messages of the scheduler and of the executors hold.
use demeter.Prelude.{
  ltb, leb, Bool-cases, contains, or_default, Str, nat_eq, str_eq, pos, ℕ, zero, suc, ◌+◌, ◌*◌, ◌/◌,
  ◌%◌, ◌<◌, ◌≡◌, refl, sym, ap, ◌∙◌, inl, inr, false, ◌&&◌, Option, none, some, [], ◌∷◌, arith,
}
use demeter.Names.{delimiter}
use demeter.Coordinator.{decimal, to_string}
use demeter.Coordinator.Apps.{read_digits, skip_spaces, stoi_digits, stoi_sign, stoi}

-- A digit after the number that has been read.
read_digits-digit :
    (d n : ℕ) (acc : Str) (front : Option ℕ)
    → d < 10
    → or_default 0 front * 10 + d ≡ n
    → read_digits front ((b'0' + d) ∷ acc) ≡ read_digits (some n) acc
unfolding read_digits
read_digits-digit d n acc front h e =
    elim (Bool-cases (leb b'0' (b'0' + d) && leb (b'0' + d) b'9')) [
      | inl digit ↦ rw digit (ap (λ k. read_digits (some k) acc) (omega (arith, e)))
      | inr other ↦ absurd (ground (arith, other, h))
    ]

-- The digits of a number, read one after the other.
read_digits-decimal :
    (fuel n : ℕ) (acc : Str) (front : Option ℕ)
    → n < fuel
    → or_default 0 front ≡ 0
    → read_digits front (decimal fuel n acc) ≡ read_digits (some n) acc
unfolding decimal
read_digits-decimal zero n acc front h z = absurd (omega arith)
read_digits-decimal (suc fuel) n acc front h z = elim (Bool-cases (ltb n 10)) [
  | inl small ↦ rw small (read_digits-digit n n acc front (ground (arith, small)) (omega arith))
  | inr large ↦
      rw
        (
          large,
          read_digits-decimal fuel (n / 10) ((b'0' + n % 10) ∷ acc) front (ground (arith, large, h))
              z,
        )
        (read_digits-digit (n % 10) n acc (some (n / 10)) (omega arith) (omega arith))
]

-- Text that begins with a digit, without a zero byte and without the delimiter.
abbrev pub IsNumeral : Str → Type 0
IsNumeral s =
    (d : ℕ) × (t : Str) × (s ≡ (b'0' + d) ∷ t)
    × (d < 10)
    × (contains s 0 ≡ false)
    × (contains s delimiter ≡ false)

decimal-IsNumeral :
    (fuel n : ℕ) (acc : Str)
    → n < fuel
    → contains acc 0 ≡ false
    → contains acc delimiter ≡ false
    → IsNumeral (decimal fuel n acc)
unfolding decimal contains
decimal-IsNumeral zero n acc h z p = absurd (omega arith)
decimal-IsNumeral (suc fuel) n acc h z p = elim (Bool-cases (ltb n 10)) [
  | inl small ↦
      rw small (n, acc, refl, ground (arith, small), ground (arith, z), ground (arith, small, p))
  | inr large ↦ rw large (
      decimal-IsNumeral fuel (n / 10) ((b'0' + n % 10) ∷ acc) (ground (arith, large, h))
        (ground (arith, z)) (ground (arith, p)))
]

pub to_string-IsNumeral : (n : ℕ) → IsNumeral (to_string n)
unfolding to_string contains
to_string-IsNumeral n = decimal-IsNumeral (suc n) n [] (omega arith) refl refl

read_digits-to_string : (n : ℕ) → read_digits none (to_string n) ≡ some n
unfolding to_string read_digits
read_digits-to_string n = read_digits-decimal (suc n) n [] none (omega arith) refl

-- Neither a space nor a sign stands before the digits of a numeral.
stoi-numeral :
    (d : ℕ) (t : Str) → d < 10 → stoi ((b'0' + d) ∷ t) ≡ stoi_digits false ((b'0' + d) ∷ t)
unfolding stoi skip_spaces stoi_sign
stoi-numeral d t h = ground arith

stoi_digits-read :
    (s : Str) (n : ℕ)
    → n < 0x80000000
    → read_digits none s ≡ some n
    → stoi_digits false s ≡ some (pos n)
unfolding stoi_digits
stoi_digits-read s n h e = ground (arith, e, h)

-- A number below 2^31 is read back from its decimal digits.
pub stoi-to_string : (n : ℕ) → n < 0x80000000 → stoi (to_string n) ≡ some (pos n)
stoi-to_string n h =
    let (d, t, e, small, ends, undelimited) = to_string-IsNumeral n in
    ap stoi e
    ∙ stoi-numeral d t small
    ∙ ap (stoi_digits false) (sym e)
    ∙ stoi_digits-read (to_string n) n h (read_digits-to_string n)

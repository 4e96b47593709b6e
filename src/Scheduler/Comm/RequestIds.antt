-- ===== src/Scheduler/Comm/RequestIds.antt =====
-- pheromone/include/scheduler/comm_helper.hpp, `get_request_id`: the numbers in the request ids.
use demeter.Prelude.{
  Bool-cases, ◌==◌, nat_eq, str_eq, ℕ, zero, suc, ◌+◌, ◌*◌, ◌%◌, ◌^◌, ◌≡◌, refl, ap, ◌∙◌, inl, inr,
  arith,
}
use demeter.Scheduler.Comm.{next_rid}

-- The counter after some requests.
unfoldable pub rid_after : ℕ → ℕ
unfolding next_rid
rid_after zero = 0
rid_after (suc n) = (next_rid (rid_after n)).1

next_rid-even :
    (m : ℕ)
    → ((next_rid (2 * m % 2 ^ 32)).0 ≡ (2 * m + 1) % 2 ^ 32)
      × ((next_rid (2 * m % 2 ^ 32)).1 ≡ 2 * suc m % 2 ^ 32)
unfolding next_rid
next_rid-even m = elim (Bool-cases (((2 * m % 2 ^ 32 + 1) % 2 ^ 32) % 10000 == 0)) [
  | inl even ↦ absurd (ground (arith, even))
  | inr odd ↦ rw odd (omega arith, omega arith)
]

rid_after-even : (n : ℕ) → rid_after n ≡ 2 * n % 2 ^ 32
unfolding rid_after
rid_after-even zero = refl
rid_after-even (suc n) = ap (λ r. (next_rid r).1) (rid_after-even n) ∙ (next_rid-even n).1

-- The requests of a scheduler are numbered by the odd numbers, in order: the counter counts twice
-- for each, and the reset at 10000 never takes place.
pub rid_after-odd : (n : ℕ) → (next_rid (rid_after n)).0 ≡ (2 * n + 1) % 2 ^ 32
rid_after-odd n = ap (λ r. (next_rid r).0) (rid_after-even n) ∙ (next_rid-even n).0

-- ===== src/Coordinator/Calls/Rounds.antt =====
-- pheromone/src/coordinator/func_call_handler.cpp, the batch of requests that no single node can
-- take: the loop that deals the requests out to the nodes in turn.
use native.Mathlib.Nat.{mod-lt, mod_self, mod-eq_of_lt}
use demeter.Prelude.{
  leb, nat_eqb, if◌then◌else◌, nat_eqb_iff, Bool-cases, length, get_elem?, or_default, nat_eq,
  str_eq, ℕ, zero, suc, ◌+◌, ◌-◌, ◌%◌, ◌≤◌, ◌<◌, ◌≡◌, refl, ap, subst, ◌⊎◌, inl, inr, false, Option,
  some, List, [], ◌∷◌, arith,
}
use demeter.Coordinator.Calls.{next_free, modify, deal}

abbrev pub sum : List ℕ → ℕ
sum [] = 0
sum (x ∷ xs) = x + sum xs

pub elem_at : (xs : List ℕ) (i : ℕ) → i < length xs → (x : ℕ) × (get_elem? xs i ≡ some x)
elem_at [] i h = absurd (omega (arith, h))
elem_at (x ∷ xs) zero h = (x, refl)
elem_at (x ∷ xs) (suc i) h = elem_at xs i (omega (arith, h))

pub elem_lt : (xs : List ℕ) (i x : ℕ) → get_elem? xs i ≡ some x → i < length xs
elem_lt [] i x e = absurd (ground (arith, e))
elem_lt (y ∷ xs) zero x e = omega arith
elem_lt (y ∷ xs) (suc i) x e = omega (arith, elem_lt xs i x e)

elem_positive : (xs : List ℕ) → 0 < sum xs → (j : ℕ) × (a : ℕ) × (get_elem? xs j ≡ some (suc a))
elem_positive [] h = absurd (omega (arith, h))
elem_positive (zero ∷ xs) h = let (j, a, e) = elem_positive xs (omega (arith, h)) in (suc j, a, e)
elem_positive (suc x ∷ xs) h = (0, x, refl)

pub length-modify : (f : ℕ → ℕ) (xs : List ℕ) (i : ℕ) → length (modify f xs i) ≡ length xs
unfolding modify
length-modify f [] i = refl
length-modify f (x ∷ xs) zero = refl
length-modify f (x ∷ xs) (suc i) = ap suc (length-modify f xs i)

sum-modify :
    (f : ℕ → ℕ) (xs : List ℕ) (i x : ℕ)
    → get_elem? xs i ≡ some x
    → sum (modify f xs i) + x ≡ sum xs + f x
unfolding modify
sum-modify f [] i x e = absurd (ground (arith, e))
sum-modify f (y ∷ xs) zero x e = let same : y ≡ x = ap (or_default 0) e in rw same (omega arith)
sum-modify f (y ∷ xs) (suc i) x e = omega (arith, sum-modify f xs i x e)

pub next_idx : (n i : ℕ) → i < n → (i + 1) % n ≡ (if nat_eqb (i + 1) n then 0 else i + 1)
next_idx n i h = elim (Bool-cases (nat_eqb (i + 1) n)) [
  | inl last ↦
      rw (last) (subst (λ m. (i + 1) % m ≡ 0) ((nat_eqb_iff (i + 1) n).0 last) (mod_self (i + 1)))
  | inr more ↦ rw (more) (mod-eq_of_lt (ground (arith, more)))
]

pub leb-suc : (n : ℕ) → leb (suc n) 0 ≡ false
leb-suc n = ground arith

-- One step of the search is one less to go.
next_away :
    (n j idx d : ℕ)
    → idx < n
    → j < n
    → (idx + suc d ≡ j) ⊎ (idx + suc d ≡ j + n)
    → ((idx + 1) % n + d ≡ j) ⊎ ((idx + 1) % n + d ≡ j + n)
next_away n j idx d h k away = rw (next_idx n idx h) (elim (Bool-cases (nat_eqb (idx + 1) n)) [
  | inl last ↦ rw (last) (inl (ground (arith, last, h, k, away)))
  | inr more ↦
      rw (more)
        (elim away [ inl near ↦ inl (omega (arith, near)) | inr far ↦ inr (omega (arith, far)) ])
])

pub next_idx_lt : (n i : ℕ) → i < n → (i + 1) % n < n
next_idx_lt n i h = mod-lt (i + 1) (omega (arith, h))

module _ (avail : List ℕ) (j a : ℕ) (free : get_elem? avail j ≡ some (suc a)) where
  abbrev Found : Option ℕ → Type 0
  Found o = (i : ℕ) × (b : ℕ) × (o ≡ some i) × (get_elem? avail i ≡ some (suc b))

  -- The search finds a free node, if the free one at `j` is `d` steps away and the fuel is more.
  next_free_some :
      (fuel d idx : ℕ)
      → idx < length avail
      → d < fuel
      → (idx + d ≡ j) ⊎ (idx + d ≡ j + length avail)
      → Found (next_free fuel avail idx)
  unfolding next_free
  next_free_some zero d idx h k away = absurd (omega (arith, k))
  next_free_some (suc fuel) zero idx h k away = (idx, a, rw (next_free, here, leb-suc a), here)
    where
      here : get_elem? avail idx ≡ some (suc a)
      here = subst (λ i. get_elem? avail i ≡ some (suc a)) (ground (arith, h, away)) free
  next_free_some (suc fuel) (suc d) idx h k away = go (elem_at avail idx h) (
      next_free_some fuel d ((idx + 1) % length avail) (next_idx_lt (length avail) idx h)
        (omega (arith, k)) (next_away (length avail) j idx d h (elem_lt avail j (suc a) free) away))
    where
      go :
          (x : ℕ) × (get_elem? avail idx ≡ some x)
          → Found (next_free fuel avail ((idx + 1) % length avail))
          → Found (next_free (suc fuel) avail idx)
      go (suc b, e) later = (idx, b, rw (next_free, e, leb-suc b), e)
      go (zero, e) later = rw (next_free, e) later

-- While a node has an executor left, the search that `avail` gives as much fuel as it has nodes
-- finds a free one.
next_free-free :
    (avail : List ℕ) (idx : ℕ)
    → idx < length avail
    → 0 < sum avail
    → (i : ℕ) × (b : ℕ) × (next_free (length avail) avail idx ≡ some i)
      × (get_elem? avail i ≡ some (suc b))
next_free-free avail idx h some_left =
    let (j, a, free) = elem_positive avail some_left in
    elim (leb-cases idx j) [
      | inl ahead ↦
          next_free_some avail j a free (length avail) (j - idx) idx h
            (omega (arith, elem_lt avail j (suc a) free, h)) (inl (omega (arith, ahead)))
      | inr behind ↦
          next_free_some avail j a free (length avail) (j + length avail - idx) idx h
            (omega (arith, h, behind)) (inr (omega (arith, h)))
    ]
  where
    leb-cases : (x y : ℕ) → (x ≤ y) ⊎ (y < x)
    leb-cases x y = ground arith

-- No node is given more than it had executors for, on top of what it already had.
abbrev pub Within : List ℕ → List ℕ → List ℕ → Type 0
Within [] [] [] = Unit
Within (x ∷ xs) (l ∷ ls) (a ∷ us) = (x ≤ l + a) × Within xs ls us
Within _ _ _ = ⊥

Within-start : (loads avail : List ℕ) → length loads ≡ length avail → Within loads loads avail
Within-start [] [] h = tt
Within-start [] (a ∷ us) h = absurd (omega (arith, h))
Within-start (l ∷ ls) [] h = absurd (omega (arith, h))
Within-start (l ∷ ls) (a ∷ us) h = (omega arith, Within-start ls us (omega (arith, h)))

Within-modify :
    (xs loads avail : List ℕ) (i b : ℕ)
    → get_elem? avail i ≡ some (suc b)
    → Within xs (modify (λ n. n + 1) loads i) (modify (λ n. n - 1) avail i)
    → Within xs loads avail
unfolding modify
Within-modify [] [] [] i b e w = tt
Within-modify [] [] (a ∷ us) zero b e w = absurd w
Within-modify [] [] (a ∷ us) (suc i) b e w = absurd w
Within-modify [] (l ∷ ls) us zero b e w = absurd w
Within-modify [] (l ∷ ls) us (suc i) b e w = absurd w
Within-modify (x ∷ xs) [] us i b e w = absurd w
Within-modify (x ∷ xs) (l ∷ ls) [] i b e w = absurd (ground (arith, e))
Within-modify (x ∷ xs) (l ∷ ls) (a ∷ us) zero b e w =
    (let same : a ≡ suc b = ap (or_default 0) e in omega (arith, same, w.0), w.1)
Within-modify (x ∷ xs) (l ∷ ls) (a ∷ us) (suc i) b e w = (w.0, Within-modify xs ls us i b e w.1)

-- If the nodes have executors for all requests, the loop ends, has dealt every request, and has
-- given no node more requests than it has executors.
pub deal-Within :
    (req_num : ℕ) (avail loads : List ℕ) (idx : ℕ)
    → idx < length avail
    → length loads ≡ length avail
    → req_num ≤ sum avail
    → (dealt : List ℕ) × (deal req_num avail loads idx ≡ some dealt)
      × (sum dealt ≡ sum loads + req_num)
      × Within dealt loads avail
unfolding deal
deal-Within zero avail loads idx h same enough =
    (loads, refl, omega arith, Within-start loads avail same)
deal-Within (suc req_num) avail loads idx h same enough =
    let (i, b, next, free) = next_free-free avail idx h (omega (arith, enough)) in
    let inside = elem_lt avail i (suc b) free in
    let (l, load) = elem_at loads i (omega (arith, inside, same)) in
    let (dealt, ends, all, within) =
      deal-Within req_num (modify (λ n. n - 1) avail i) (modify (λ n. n + 1) loads i)
        ((i + 1) % length avail)
        (omega (arith, length-modify (λ n. n - 1) avail i, next_idx_lt (length avail) i inside))
        (omega
          (arith, length-modify (λ n. n - 1) avail i, length-modify (λ n. n + 1) loads i, same))
        (omega (arith, sum-modify (λ n. n - 1) avail i (suc b) free, enough)) in
    (
      dealt,
      rw (deal, next) ends,
      omega (arith, all, sum-modify (λ n. n + 1) loads i l load),
      Within-modify dealt loads avail i b free within,
    )

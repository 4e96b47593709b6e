-- ===== src/Scheduler/Calls/Free.antt =====
-- pheromone/src/scheduler/scheduler_server.cpp, `schedule_func_call` and
-- `get_avail_executor_num`: the executors that are free.
use demeter.Prelude.{
  nat_eqb_iff, Bool-cases, Ensures, Ensures-map, contains, IsSetList, get_elem?, All, All-map, Map,
  lookup, insert, ◌==◌, nat_eq, str_eq, ℕ, zero, suc, ◌≡◌, inl, inr, Bool, true, ◌&&◌, ◌||◌, Option,
  some, List, [], ◌∷◌, map, arith,
}
use demeter.Scheduler.Calls.{is_avail, get_avail_executor_num, find_executors}

-- The executor is in the map, empty or available.
abbrev pub IsFree : Map ℕ ℕ → ℕ → Type 0
IsFree statuses id = (st : ℕ) × (lookup id statuses ≡ some st) × (is_avail st ≡ true)

abbrev ids_of : Map ℕ ℕ → List ℕ
ids_of = map (λ entry. entry.0)

-- No key twice.
abbrev pub IsMap : Map ℕ ℕ → Type 0
IsMap statuses = IsSetList (ids_of statuses)

contains-lookup :
    (id : ℕ) (m : Map ℕ ℕ) (st : ℕ) → lookup id m ≡ some st → contains (ids_of m) id ≡ true
unfolding lookup contains
contains-lookup id [] st h = ground (arith, h)
contains-lookup id ((j, w) ∷ m) st h = ground (arith, contains-lookup id m st)

IsFree-cons :
    (j w : ℕ) (m : Map ℕ ℕ) (id : ℕ) → IsMap ((j, w) ∷ m) → IsFree m id → IsFree ((j, w) ∷ m) id
unfolding lookup
IsFree-cons j w m id h (st, found, free) =
    (st, ground (arith, nat_eqb_iff j id, contains-lookup id m st found), free)

IsFree-head : (j w : ℕ) (m : Map ℕ ℕ) → is_avail w ≡ true → IsFree ((j, w) ∷ m) j
unfolding lookup
IsFree-head j w m free = (w, ground arith, free)

pub All-get_elem? {ℓ κ} :
    {A : Type ℓ} (P : A → Type κ) (xs : List A) (i : ℕ) → All P xs → Ensures P (get_elem? xs i)
All-get_elem? P [] i h = tt
All-get_elem? P (x ∷ xs) zero h = h.0
All-get_elem? P (x ∷ xs) (suc i) h = All-get_elem? P xs i h.1

-- What is found in the rest of a map is found in the whole.
abbrev pub AllFree : Map ℕ ℕ → Option ℕ × List ℕ → Type 0
AllFree m found = Ensures (IsFree m) found.0 × All (IsFree m) found.1

AllFree-cons :
    (j w : ℕ) (m : Map ℕ ℕ) (found : Option ℕ × List ℕ)
    → IsMap ((j, w) ∷ m)
    → AllFree m found
    → AllFree ((j, w) ∷ m) found
AllFree-cons j w m (warm, colds) h free = (
  Ensures-map (IsFree m) (IsFree ((j, w) ∷ m)) (λ id. IsFree-cons j w m id h) warm free.0,
  All-map (IsFree m) (IsFree ((j, w) ∷ m)) (λ id. IsFree-cons j w m id h) colds free.1,
)

-- What the search finds is free.
pub find_executors-IsFree :
    (shared : Bool) (warm : List ℕ) (m : Map ℕ ℕ)
    → IsMap m
    → AllFree m (find_executors shared warm m)
unfolding find_executors
find_executors-IsFree shared warm [] h = (tt, tt)
find_executors-IsFree shared warm ((j, w) ∷ m) h =
    let rest =
      AllFree-cons j w m (find_executors shared warm m) h
        (find_executors-IsFree shared warm m h.1) in
    elim (Bool-cases (w == 1 && contains warm j)) [
      | inl found ↦ rw found (IsFree-head j w m (ground (arith, found)), tt)
      | inr missed ↦ elim (Bool-cases (w == 0 || (shared && w == 1))) [
        | inl cold ↦ rw (missed, cold) (rest.0, (IsFree-head j w m (ground (arith, cold)), rest.1))
        | inr other ↦ rw (missed, other) rest
      ]
    ]

-- A free executor that gets a call is one free executor less.
pub get_avail_executor_num-insert :
    (id : ℕ) (m : Map ℕ ℕ)
    → IsFree m id
    → suc (get_avail_executor_num (insert id 2 m)) ≡ get_avail_executor_num m
unfolding get_avail_executor_num insert lookup
get_avail_executor_num-insert id [] (st, found, free) = ground (arith, found)
get_avail_executor_num-insert id ((j, w) ∷ m) (st, found, free) = elim (Bool-cases (j == id)) [
  | inl hit ↦ ground (arith, found, free, hit)
  | inr miss ↦ ground (
    arith,
    found,
    free,
    miss,
    get_avail_executor_num-insert id m (st, ground (arith, found, miss), free),
  )
]

-- ===== src/Scheduler/Comm/Threads.antt =====
-- pheromone/include/scheduler/comm_helper.hpp: how `CommHelper` spreads its requests over the I/O
-- threads.
use native.Mathlib.Nat.{mod-eq_of_lt, mod_self}
use demeter.Prelude.{
  ltb, nat_eqb, if◌then◌else◌, ltb→lt, lt→ltb, nat_eqb_iff, Bool-cases, length, length-append, Str,
  nat_eq, str_eq, ℕ, zero, suc, ◌+◌, ◌-◌, ◌%◌, ◌≤◌, ◌<◌, ◌≡◌, refl, ap, ◌∙◌, inl, inr, true, false,
  some, List, [], ◌∷◌, ◌++◌, arith,
}
use demeter.Scheduler.{emit, SecondaryThreadMsg, CommHelper, get_kvs, kvs_get}
use demeter.Scheduler.Comm.{
  get_io_thread_id, push_at, to_io_thread, get_kvs_async, get_kvs_async_base,
}

step_lt :
    (id count next : ℕ)
    → 1 < count
    → id < count
    → next ≡ suc id
    → 1 ≤ (if nat_eqb (next % count) 0 then 1 else next)
      × (if nat_eqb (next % count) 0 then 1 else next) < count
step_lt id count next many current e = elim (Bool-cases (nat_eqb next count)) [
  | inl last ↦ ground (arith, last, mod_self count, nat_eqb_iff next count)
  | inr inner ↦
      ground (arith, inner, mod-eq_of_lt {n = next} {m = count} (ground (arith, inner, current, e)))
]

-- A request behind the others of one queue, which `front` stands before and `back` behind.
push_at-lt :
    (msg : SecondaryThreadMsg) (index : ℕ) (queues : List (List SecondaryThreadMsg))
    → index < length queues
    → (front back : List (List SecondaryThreadMsg)) × (queue : List SecondaryThreadMsg) × (queues
        ≡ front ++ queue ∷ back)
      × (length front ≡ index)
      × (push_at msg index queues ≡ some (front ++ (queue ++ msg ∷ []) ∷ back))
unfolding push_at
push_at-lt msg index [] h = absurd (omega (arith, h))
push_at-lt msg zero (queue ∷ queues) h = ([], queues, queue, refl, refl, refl)
push_at-lt msg (suc index) (first ∷ queues) h =
    let (front, back, queue, whole, place, pushed) =
      push_at-lt msg index queues (omega (arith, h)) in
    (first ∷ front, back, queue, ap (◌∷◌ first) whole, ap suc place, rw pushed refl)

not_zero : (n : ℕ) → 1 ≤ n → nat_eqb n 0 ≡ false
not_zero n h = ground arith

module _ {D : Type 0} where
  -- There is a queue for each I/O thread but the main one, and the current thread is one of them.
  pub record IsReady (h : CommHelper D) : Type 0 where
    pub started : 1 ≤ h.io_thread_count
    pub small : h.io_thread_count < 0x100000000
    pub current : 1 < h.io_thread_count → h.io_thread_id < h.io_thread_count
    pub queues : suc (length h.secondary_thread_msg_queues) ≡ h.io_thread_count

  get_io_thread_id-bounds :
      (h : CommHelper D)
      → IsReady h
      → 1 < h.io_thread_count
      → 1 ≤ (get_io_thread_id true h).0 × (get_io_thread_id true h).0 < h.io_thread_count
  unfolding get_io_thread_id
  get_io_thread_id-bounds h ready many =
      step_lt h.io_thread_id h.io_thread_count ((h.io_thread_id + 1) % 0x100000000) many
        (ready.current many) (omega (arith, ready.current many, ready.small))

  get_io_thread_id-IsReady :
      (h : CommHelper D) (queues : List (List SecondaryThreadMsg))
      → IsReady h
      → 1 < h.io_thread_count
      → length queues ≡ length h.secondary_thread_msg_queues
      → IsReady (record (get_io_thread_id true h).1 { secondary_thread_msg_queues = queues })
  unfolding get_io_thread_id
  get_io_thread_id-IsReady h queues ready many e = record {
    started = ready.started;
    small = ready.small;
    current = λ m. (get_io_thread_id-bounds h ready many).1;
    queues = ap suc e ∙ ready.queues;
  }

  -- What becomes of a request for the value of a key. Where there is no other thread, the main thread
  -- issues it; otherwise it stands last in the queue of the thread that is chosen, all else stays.
  pub data Served (key : Str) (h : CommHelper D) : CommHelper D → Type 0 where
    issued : (h.io_thread_count ≤ 1) → Served key h (emit (kvs_get 0 key) h)
    handed :
        (front back : List (List SecondaryThreadMsg)) (queue : List SecondaryThreadMsg)
        (thread_id : ℕ)
        → 1 < h.io_thread_count
        → thread_id ≡ suc (length front)
        → h.secondary_thread_msg_queues ≡ front ++ queue ∷ back
        → Served key h (record h {
          io_thread_id = thread_id;
          secondary_thread_msg_queues = front ++ (queue ++ get_kvs key ∷ []) ∷ back;
        })

  -- A request for the value of a key of the key-value store is never lost and is for that key: the
  -- main thread issues it if there is no other, and otherwise it is put last into the queue of the
  -- chosen one of the other threads, which exists. There are as many queues as other threads, and this
  -- stays so.
  pub get_kvs_async-IsReady :
      (key : Str) (h : CommHelper D)
      → IsReady h
      → (h' : CommHelper D) × (get_kvs_async key h ≡ some h') × IsReady h' × Served key h h'
  unfolding get_kvs_async to_io_thread get_kvs_async_base
  get_kvs_async-IsReady key h ready = elim (Bool-cases (ltb 1 h.io_thread_count)) [
    | inr alone ↦ (
      emit (kvs_get 0 key) h,
      rw alone refl,
      record {
        started = ready.started;
        small = ready.small;
        current = ready.current;
        queues = ready.queues;
      },
      issued (ground (arith, alone)),
    )
    | inl many ↦ handed_over (ltb→lt 1 h.io_thread_count many)
  ]
    where
      same_length :
          (front back : List (List SecondaryThreadMsg)) (queue : List SecondaryThreadMsg)
          → h.secondary_thread_msg_queues ≡ front ++ queue ∷ back
          → length (front ++ (queue ++ get_kvs key ∷ []) ∷ back)
            ≡ length h.secondary_thread_msg_queues
      same_length front back queue whole = rw (whole) (
          omega (
            arith,
            length-append front (queue ∷ back),
            length-append front ((queue ++ get_kvs key ∷ []) ∷ back),
          ))

      handed_over :
          1 < h.io_thread_count
          → (h' : CommHelper D) × (get_kvs_async key h ≡ some h') × IsReady h' × Served key h h'
      handed_over many =
          let id = (get_io_thread_id true h).0 in
          let bounds = get_io_thread_id-bounds h ready many in
          let (front, back, queue, whole, place, pushed) =
            push_at-lt (get_kvs key) (id - 1) h.secondary_thread_msg_queues
              (omega (arith, bounds.0, bounds.1, ready.queues)) in
          (
            record (get_io_thread_id true h).1 {
              secondary_thread_msg_queues = front ++ (queue ++ get_kvs key ∷ []) ∷ back;
            },
            rw (lt→ltb 1 h.io_thread_count many, not_zero id bounds.0, pushed) refl,
            get_io_thread_id-IsReady h _ ready many (same_length front back queue whole),
            unfold get_io_thread_id in
                handed front back queue id many (omega (arith, place, bounds.0)) whole,
          )

-- ===== src/Scheduler/Data/Exchange.antt =====
-- pheromone/include/scheduler/comm_helper.hpp: the two ends of the data protocol.
use native.Mathlib.Nat.{mod-eq_of_lt}
use demeter.Prelude.{
  ltb, lt→ltb, Bool-cases, length, length-append, take-append_length, drop-append_length, Map, ◌==◌,
  Str, nat_eq, str_eq, ℕ, ◌+◌, ◌%◌, ◌<◌, ◌≡◌, refl, inl, inr, false, some, [], ◌∷◌, ◌++◌, arith,
}
use demeter.Coordinator.{tcp_address}
use demeter.Scheduler.{data_resp, to_data_server, to_data_client, copy, CommHelper, emit}
use demeter.Scheduler.Comm.{
  u32, data_access_client_port, get_key_address, data_request, send_data_req_base,
}
use demeter.Scheduler.Data.{
  parse_data, get_shm_obj, data_response, handle_data_request, handle_data_response,
}

-- What a message with a key holds is the key and what follows.
parse_data-key : (key rest : Str) → parse_data (length key ∷ key ++ rest) ≡ some (key, rest)
unfolding parse_data
parse_data-key key rest = elim (Bool-cases (ltb (length (key ++ rest)) (length key))) [
  | inl short ↦ absurd (ground (arith, short, length-append key rest))
  | inr long ↦ rw (long, take-append_length key rest, drop-append_length key rest) refl
]

parse_data-data_request :
    (key address : Str)
    → length key < 256
    → parse_data (data_request key address) ≡ some (key, address)
unfolding data_request
parse_data-data_request key address h = rw (mod-eq_of_lt h) (parse_data-key key address)

module _ {D : Type 0} where
  -- The node that has an object answers a request for it, and the node that asked stores the
  -- object under its name and learns its size. The address of the node is known, the name has fewer
  -- than 256 bytes, and the object is not empty.
  pub send_data_req_base-exchange :
      (shm : Str → ℕ → Str) (lens : Map Str ℕ) (key : Str) (tid : ℕ) (asking serving : CommHelper D)
      → length key < 256
      → (get_key_address key asking == []) ≡ false
      → 0 < length (get_shm_obj shm lens key)
      → (asked answer : Str) × (send_data_req_base key tid asking
          ≡ emit (to_data_server (get_key_address key asking) asked) asking)
        × (handle_data_request shm lens asked serving
            ≡ some (
                emit
                  (to_data_client
                    (tcp_address asking.ip ((tid + data_access_client_port) % u32))
                    answer)
                  serving))
        × (handle_data_response answer asking
            ≡ some (
              data_resp key (length (get_shm_obj shm lens key)),
              emit (copy key (get_shm_obj shm lens key)) asking,
            ))
  unfolding send_data_req_base handle_data_request handle_data_response data_response
  send_data_req_base-exchange shm lens key tid asking serving short known full =
      let reply = tcp_address asking.ip ((tid + data_access_client_port) % u32) in
      let content = get_shm_obj shm lens key in
      (
        data_request key reply,
        data_response (length key) key content,
        rw known refl,
        rw (parse_data-data_request key reply short, lt→ltb 0 (length content) full) refl,
        rw (parse_data-key key content) refl,
      )

-- ===== src/ServerTl/Reserved.antt =====
-- The whole life of a connection of src/server_tl.rs, and the capacity that its buffer has.
use wagonet.Prelude.{ℕ, ◌≤◌, ◌≡◌, refl, Bool, Option, List, arith}
use wagonet.Timeouts.{TimeoutConfig}
use wagonet.Vec.{reserve, with_capacity}
use wagonet.Socket.{Socket}
use wagonet.ServerTl.{
  ServerTl, new, set_max_buffer_size, set_timeout_config, read_command, receive_data, send_data,
}
use wagonet.ServerTl.Capacity.{
  HasRoom, has_room, read_command-Keeps, receive_data-Keeps, send_data-Keeps,
}

module _ (socket : Socket) where
  -- What a connection does with its client, and the setting of its timeouts.
  pub data Serves : ServerTl socket → ServerTl socket → Type 0 where
    reads_command : {s : ServerTl socket} → Serves s (read_command socket s).1
    receives : (n : ℕ) {s : ServerTl socket} → Serves s (receive_data socket n s).1
    sends :
        (status : ℕ) (buf : Option (List ℕ)) {s : ServerTl socket}
        → Serves s (send_data socket status buf s).1
    times : (t : TimeoutConfig) {s : ServerTl socket} → Serves s (set_timeout_config socket t s).1

  -- Everything that happens to a connection.
  pub data Reachable : ServerTl socket → Type 0 where
    accepted : (stream : socket.State) → Reachable (new socket stream)
    limited :
        (can_reserve : ℕ → Bool) (size : ℕ) {s : ServerTl socket}
        → Reachable s
        → Reachable (set_max_buffer_size socket can_reserve size s).1
    serving : {s s' : ServerTl socket} → Reachable s → Serves s s' → Reachable s'

  -- The buffer has room for a header and for what the limit admits.
  pub record IsReserved (s : ServerTl socket) : Type 0 where
    pub header : 8 ≤ s.buffer.capacity
    pub payload : s.max_buffer_size ≤ s.buffer.capacity

  Serves-HasRoom :
      (limit room : ℕ) {s s' : ServerTl socket}
      → 8 ≤ room
      → limit ≤ room
      → Serves s s'
      → HasRoom socket limit room s
      → HasRoom socket limit room s'
  unfolding set_timeout_config
  Serves-HasRoom limit room enough reserved reads_command has =
      (read_command-Keeps socket limit room enough).leads _ has
  Serves-HasRoom limit room enough reserved (receives n) has =
      (receive_data-Keeps socket limit room enough n reserved).leads _ has
  Serves-HasRoom limit room enough reserved (sends status buf) has =
      (send_data-Keeps socket limit room enough status buf).leads _ has
  Serves-HasRoom limit room enough reserved (times t) has =
      has_room socket limit room _ _ refl refl has

  Serves-IsReserved : {s s' : ServerTl socket} → Serves s s' → IsReserved s → IsReserved s'
  Serves-IsReserved {s} step reserved =
      let has =
        Serves-HasRoom s.max_buffer_size s.buffer.capacity reserved.header reserved.payload step
          (record { at_limit = refl; at_room = refl }) in
      record {
        header = omega (arith, reserved.header, has.at_room);
        payload = omega (arith, reserved.payload, has.at_room, has.at_limit);
      }

  set_max_buffer_size-IsReserved :
      (can_reserve : ℕ → Bool) (size : ℕ) (s : ServerTl socket)
      → IsReserved s
      → IsReserved (set_max_buffer_size socket can_reserve size s).1
  unfolding set_max_buffer_size reserve
  set_max_buffer_size-IsReserved can_reserve size s reserved = record {
    header = ground (arith, reserved.header);
    payload = ground (arith, reserved.payload);
  }

  Reachable-IsReserved : {s : ServerTl socket} → Reachable s → IsReserved s
  unfolding new with_capacity
  Reachable-IsReserved (accepted stream) = record { header = omega arith; payload = omega arith }
  Reachable-IsReserved (limited can_reserve size before) =
      set_max_buffer_size-IsReserved can_reserve size _ (Reachable-IsReserved before)
  Reachable-IsReserved (serving before step) = Serves-IsReserved step (Reachable-IsReserved before)

  -- Of every connection, whatever its limits were set to, whatever the allocator granted and whatever
  -- happened on the stream: its limit is within the capacity that its buffer has reserved, and no
  -- read of a command, read of a payload or sending of a response changes that capacity.
  pub Serves-in_place :
      {s s' : ServerTl socket}
      → Reachable s
      → Serves s s'
      → (s.max_buffer_size ≤ s.buffer.capacity) × (s'.buffer.capacity ≡ s.buffer.capacity)
  Serves-in_place {s} reached step =
      let reserved = Reachable-IsReserved reached in
      (
        reserved.payload,
        (Serves-HasRoom s.max_buffer_size s.buffer.capacity reserved.header reserved.payload step
            (record { at_limit = refl; at_room = refl })).at_room,
      )

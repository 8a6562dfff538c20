-- ===== src/ClientTl/Lifetime.antt =====
-- The whole life of a client, as the steps that its owner and its ping task take.
use wagonet.Prelude.{ℕ, ◌≡◌, refl, ap, Bool, false, List, String, arith}
use wagonet.Timeouts.{TimeoutConfig}
use wagonet.Socket.{Socket}
use wagonet.Ping.{Locks, Wakeup, ping_round, without}
use wagonet.Ping.Tasks.{ping_round-Keeps, without-IsTracked}
use wagonet.ClientTl.{
  ClientTl, World, Attempt, new, set_max_buffer_size, set_command_has_answer, set_keep_alive,
  set_timeout_config, connect, disconnect, handle_message, handle_message_with_no_answer,
}
use wagonet.ClientTl.Settings.{IsSound, IsFree, new-IsSound, same-IsSound}
use wagonet.ClientTl.Calls.{
  connect-IsSound, disconnect-IsSound, set_keep_alive-IsSound, set_timeout_config-IsSound,
  handle_message-IsSound,
}

module _ (socket : Socket) where
  -- Everything that happens to a client: the calls of its owner, and the end and the rounds of its
  -- ping task. In every step the lock of the task's handle is free.
  pub data Step : ClientTl socket → ClientTl socket → Type 0 where
    message :
        (w : World socket) (command : ℕ) (bytes : List ℕ) {c : ClientTl socket}
        → IsFree socket w.connect_locks
        → IsFree socket w.failure_locks
        → Step c (handle_message socket w command bytes c).1
    quiet_message :
        (w : World socket) (command : ℕ) (bytes : List ℕ) {c : ClientTl socket}
        → IsFree socket w.connect_locks
        → IsFree socket w.failure_locks
        → Step c (handle_message_with_no_answer socket w command bytes c).1
    connecting :
        (dial : ℕ → ℕ → Attempt socket) (locks : Locks) {c : ClientTl socket}
        → IsFree socket locks
        → Step c (connect socket dial locks c).1
    disconnecting :
        (locks : Locks) {c : ClientTl socket}
        → IsFree socket locks
        → Step c (disconnect socket locks c).1
    keeping_alive :
        (locks : Locks) (enabled : Bool) {c : ClientTl socket}
        → IsFree socket locks
        → Step c (set_keep_alive socket locks enabled c)
    timing : (t : TimeoutConfig) {c : ClientTl socket} → Step c (set_timeout_config socket t c).1
    sizing :
        (can_reserve : ℕ → Bool) (size : ℕ) {c : ClientTl socket}
        → Step c (set_max_buffer_size socket can_reserve size c).1
    answering :
        (answer : Bool) {c : ClientTl socket} → Step c (set_command_has_answer socket answer c)
    round :
        (w : Wakeup) {c : ClientTl socket}
        → Step c (record c {
          ping_state = (ping_round socket w c.ping_state c.stream).1;
          stream = (ping_round socket w c.ping_state c.stream).2;
        })
    task_ends :
        (t : ℕ) {c : ClientTl socket}
        → Step c (record c {
          ping_state = record (c.ping_state) { alive = without t c.ping_state.alive };
        })

  pub data Reachable : ClientTl socket → Type 0 where
    born : (address : String) (now : ℕ) → Reachable (new socket address now)
    lives : {c c' : ClientTl socket} → Reachable c → Step c c' → Reachable c'

  set_max_buffer_size-keeps :
      (can_reserve : ℕ → Bool) (size : ℕ) (c : ClientTl socket)
      → ((set_max_buffer_size socket can_reserve size c).1.timeout_config ≡ c.timeout_config)
        × ((set_max_buffer_size socket can_reserve size c).1.ping_state ≡ c.ping_state)
  unfolding set_max_buffer_size
  set_max_buffer_size-keeps can_reserve size c = (ground arith, ground arith)

  quiet-IsSound :
      (w : World socket) (command : ℕ) (bytes : List ℕ) (c : ClientTl socket)
      → IsFree socket w.connect_locks
      → IsFree socket w.failure_locks
      → IsSound socket c
      → IsSound socket (handle_message_with_no_answer socket w command bytes c).1
  unfolding handle_message_with_no_answer
  quiet-IsSound w command bytes c free free' sound =
      let c0 = record c { command_has_answer = false } in
      let quiet = same-IsSound socket c c0 refl refl refl sound.tracked sound in
      let after = handle_message-IsSound socket w command bytes c0 free free' quiet in
      same-IsSound socket (handle_message socket w command bytes c0).1 _ refl refl refl
        after.tracked after

  Step-IsSound : {c c' : ClientTl socket} → Step c c' → IsSound socket c → IsSound socket c'
  Step-IsSound (message w command bytes free free') sound =
      handle_message-IsSound socket w command bytes _ free free' sound
  Step-IsSound (quiet_message w command bytes {c} free free') sound =
      quiet-IsSound w command bytes c free free' sound
  Step-IsSound (connecting dial locks free) sound = connect-IsSound socket dial locks _ free sound
  Step-IsSound (disconnecting locks free) sound = disconnect-IsSound socket locks _ free sound
  Step-IsSound (keeping_alive locks enabled free) sound =
      set_keep_alive-IsSound socket locks enabled _ free sound
  Step-IsSound (timing t) sound = set_timeout_config-IsSound socket t _ sound
  Step-IsSound (sizing can_reserve size {c}) sound =
      let (same_settings, same_ping) = set_max_buffer_size-keeps can_reserve size c in
      same-IsSound socket c _ same_settings (ap (λ p. p.config) same_ping)
        (ap (λ p. p.timeout_config) same_ping) (rw same_ping sound.tracked) sound
  Step-IsSound (answering answer {c}) sound =
      unfold set_command_has_answer in same-IsSound socket c _ refl refl refl sound.tracked sound
  Step-IsSound (round w {c}) sound =
      let (same_config, same_timeouts, same_alive, same_handle) =
        ping_round-Keeps socket w c.ping_state c.stream in
      same-IsSound socket c _ refl same_config same_timeouts
        (rw (same_alive, same_handle) sound.tracked) sound
  Step-IsSound (task_ends t {c}) sound =
      same-IsSound socket c _ refl refl refl (without-IsTracked t c.ping_state sound.tracked) sound

  -- Of every client that was made by `new`, whatever calls, ping rounds and endings of ping tasks
  -- happened to it since, as long as the lock of the task's handle was free: its timeouts are
  -- valid, the ping task has the same ones, and no ping task is alive or just the one whose handle
  -- is held.
  pub Reachable-IsSound : {c : ClientTl socket} → Reachable c → IsSound socket c
  Reachable-IsSound (born address now) = new-IsSound socket address now
  Reachable-IsSound (lives before step) = Step-IsSound step (Reachable-IsSound before)

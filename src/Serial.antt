-- ===== src/Serial.antt =====
-- The serial buffers of src/zsrmv.c as the driver uses them. The semaphores make each call atomic;
-- a call's wake-up of the other side is counted. The printk reports are left out, with the two
-- static counters that only they read (reported_full, invocation_cnt).
pub mod Laws
pub mod Tasks
use mixed_trust_zsrmv_public.Base.{
  ℕ, suc, ◌+◌, ◌<◌, ◌≡◌, Bool, true, false, ◌&&◌, ◌||◌, not, List, [], length, ltb, ◌==◌,
  if◌then◌else◌,
}
use mixed_trust_zsrmv_public.Ring.{Ring, is_empty, is_full, write_loop, read_loop}

-- #define SERIAL_RECEIVING_BUFFER_SIZE 2048
abbrev pub serial_receiving_buffer_size : ℕ
serial_receiving_buffer_size = 2048

-- #define SERIAL_SENDING_BUFFER_SIZE 1024
abbrev pub serial_sending_buffer_size : ℕ
serial_sending_buffer_size = 1024

pub record Serial : Type 0 where
  pub receiving : Ring
  pub serial_data_dropped : Bool
  pub reader_wakeups : ℕ
  pub sending : Ring
  pub sender_wakeups : ℕ

-- The number of bytes that were stored; the others are dropped.
unfoldable pub serial_receiving_buffer_write : Serial → List ℕ → Serial × ℕ
serial_receiving_buffer_write s bytes =
    let (ring, wrote) = write_loop serial_receiving_buffer_size s.receiving bytes in
    let lost = is_full serial_receiving_buffer_size ring && ltb wrote (length bytes) in
    (
      record s {
        receiving = ring;
        serial_data_dropped = lost || s.serial_data_dropped;
        reader_wakeups = suc s.reader_wakeups;
      },
      wrote,
    )

take_received : Serial → ℕ → Serial × List ℕ
take_received s len =
    let (ring, bytes) = read_loop serial_receiving_buffer_size s.receiving len in
    (record s { receiving = ring }, bytes)

-- On an empty buffer the reader sleeps in wait_event_interruptible: `asleep` is what the other
-- tasks do to the buffers until it goes on, in `serial_receiver_task` or after a signal.
unfoldable pub serial_receiving_buffer_read :
    (asleep : Serial → Serial) → Serial → ℕ → Serial × List ℕ
unfolding take_received
serial_receiving_buffer_read asleep s len =
    if is_empty s.receiving then take_received (asleep s) len else take_received s len

unfoldable pub serial_sending_buffer_write : Serial → List ℕ → Serial × ℕ
serial_sending_buffer_write s bytes =
    let (ring, wrote) = write_loop serial_sending_buffer_size s.sending bytes in
    (record s { sending = ring; sender_wakeups = suc s.sender_wakeups }, wrote)

unfoldable pub serial_sending_buffer_read : Serial → ℕ → Serial × List ℕ
serial_sending_buffer_read s len =
    if is_empty s.sending
    then (s, [])
    else let (ring, bytes) = read_loop serial_sending_buffer_size s.sending len in
      (record s { sending = ring }, bytes)

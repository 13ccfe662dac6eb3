-- ===== src/Serial/Laws.antt =====
-- The serial buffers of src/zsrmv.c are bounded queues: nothing that was stored is lost, and what
-- does not fit is counted out by the result.
use mixed_trust_zsrmv_public.Base.{
  ℕ, zero, suc, ◌<◌, ◌≤◌, ◌≡◌, refl, Bool, true, false, ◌||◌, List, [], ◌∷◌, ◌++◌, arith, ltb,
  if◌then◌else◌, length, take, drop, length-append,
}
use mixed_trust_zsrmv_public.Ring.{is_empty}
use mixed_trust_zsrmv_public.Ring.Fifo.{
  Holds, room, write_loop-Holds, read_loop-Holds, full-room, empty-nil,
}
use mixed_trust_zsrmv_public.Serial.{
  Serial, serial_receiving_buffer_size, serial_sending_buffer_size, serial_receiving_buffer_write,
  serial_receiving_buffer_read, serial_sending_buffer_write, serial_sending_buffer_read,
  take_received,
}

-- The receiving buffer holds the bytes `inp`, the sending buffer the bytes `out`.
pub record Carries (s : Serial) (inp out : List ℕ) : Type 0 where
  pub received : Holds serial_receiving_buffer_size s.receiving inp
  pub to_send : Holds serial_sending_buffer_size s.sending out

pub length-take_le : (k : ℕ) (vs : List ℕ) → length (take k vs) ≤ k
length-take_le zero vs = omega arith
length-take_le (suc k) [] = omega arith
length-take_le (suc k) (v ∷ vs) = omega (arith, length-take_le k vs)

length-take_of_lt : (k : ℕ) (vs : List ℕ) → k < length vs → length (take k vs) ≡ k
length-take_of_lt zero vs h = refl
length-take_of_lt (suc k) [] h = omega arith
length-take_of_lt (suc k) (v ∷ vs) h = omega (arith, length-take_of_lt k vs)

length-take_all : (k : ℕ) (vs : List ℕ) → length vs ≤ k → length (take k vs) ≡ length vs
length-take_all zero [] h = refl
length-take_all zero (v ∷ vs) h = omega arith
length-take_all (suc k) [] h = refl
length-take_all (suc k) (v ∷ vs) h = omega (arith, length-take_all k vs)

abbrev pub is_nil : List ℕ → Bool
is_nil [] = true
is_nil (x ∷ xs) = false

-- the outcome of a read that took `bytes` and left `rest`
abbrev pub Read : List ℕ → List ℕ → List ℕ → Serial × List ℕ → Type 0
Read rest out bytes (s', read) = Carries s' rest out × (read ≡ bytes)

take_received-Read :
    (s : Serial) (inp out : List ℕ) (len : ℕ)
    → Carries s inp out
    → Read (drop len inp) out (take len inp) (take_received s len)
unfolding take_received
take_received-Read s inp out len c =
    let (held, same) =
      read_loop-Holds serial_receiving_buffer_size s.receiving len inp c.received in
    (record { received = held; to_send = c.to_send }, same)

-- The reader takes the oldest received bytes, as many as it asks for or as there are: those that
-- are there when it calls or, if there are none, those that are there when it wakes up.
pub serial_receiving_buffer_read-Read :
    (asleep : Serial → Serial) (s : Serial) (inp out inp' out' : List ℕ) (len : ℕ)
    → Carries s inp out
    → Carries (asleep s) inp' out'
    → Read
        (if is_nil inp then drop len inp' else drop len inp)
        (if is_nil inp then out' else out)
        (if is_nil inp then take len inp' else take len inp)
        (serial_receiving_buffer_read asleep s len)
unfolding serial_receiving_buffer_read
serial_receiving_buffer_read-Read asleep s [] out inp' out' len c c' =
    let e : is_empty s.receiving ≡ true =
      ground (arith, c.received.writing, c.received.reading_in_range) in
    rw (e, serial_receiving_buffer_read) (take_received-Read (asleep s) inp' out' len c')
serial_receiving_buffer_read-Read asleep s (x ∷ xs) out inp' out' len c c' =
    let e = empty-nil serial_receiving_buffer_size x xs c.received in
    rw (e, serial_receiving_buffer_read) (take_received-Read s (x ∷ xs) out len c)

drop-nil : (len : ℕ) → drop {A = ℕ} len [] ≡ []
drop-nil zero = refl
drop-nil (suc len) = refl

take-nil : (len : ℕ) → take {A = ℕ} len [] ≡ []
take-nil zero = refl
take-nil (suc len) = refl

module _ (s : Serial) (inp out : List ℕ) (c : Carries s inp out) where
  abbrev free_in : ℕ
  free_in = room serial_receiving_buffer_size inp

  abbrev free_out : ℕ
  free_out = room serial_sending_buffer_size out

  -- Received bytes are appended as far as they fit, the result counts those, and the flag for
  -- dropped data is raised just when some did not fit or it was raised before.
  pub serial_receiving_buffer_write-Carries :
      (bytes : List ℕ)
      → let (s', wrote) = serial_receiving_buffer_write s bytes in
        Carries s' (inp ++ take free_in bytes) out
        × (wrote ≡ length (take free_in bytes))
        × (s'.serial_data_dropped ≡ (ltb free_in (length bytes) || s.serial_data_dropped))
  unfolding serial_receiving_buffer_write
  serial_receiving_buffer_write-Carries bytes =
      let (held, count) =
        write_loop-Holds serial_receiving_buffer_size s.receiving inp bytes c.received in
      let full = full-room serial_receiving_buffer_size (inp ++ take free_in bytes) held in
      (
        record { received = held; to_send = c.to_send },
        count,
        ground (
          arith,
          full,
          count,
          length-append inp (take free_in bytes),
          length-take_le free_in bytes,
          length-take_of_lt free_in bytes,
          length-take_all free_in bytes,
        ),
      )

  -- Bytes to send are appended as far as they fit, and the result counts those.
  pub serial_sending_buffer_write-Carries :
      (bytes : List ℕ)
      → let (s', wrote) = serial_sending_buffer_write s bytes in
        Carries s' inp (out ++ take free_out bytes) × (wrote ≡ length (take free_out bytes))
  unfolding serial_sending_buffer_write
  serial_sending_buffer_write-Carries bytes =
      let (held, count) =
        write_loop-Holds serial_sending_buffer_size s.sending out bytes c.to_send in
      (record { received = c.received; to_send = held }, count)

-- The sender takes the oldest bytes to send, as many as it asks for or as there are, and none from
-- an empty buffer.
pub serial_sending_buffer_read-Read :
    (s : Serial) (inp out : List ℕ) (len : ℕ)
    → Carries s inp out
    → let (s', read) = serial_sending_buffer_read s len in
      Carries s' inp (drop len out) × (read ≡ take len out)
unfolding serial_sending_buffer_read
serial_sending_buffer_read-Read s inp [] len c =
    let e : is_empty s.sending ≡ true =
      ground (arith, c.to_send.writing, c.to_send.reading_in_range) in
    rw (e, serial_sending_buffer_read) (rw drop-nil c, rw take-nil refl)
serial_sending_buffer_read-Read s inp (x ∷ xs) len c =
    let e = empty-nil serial_sending_buffer_size x xs c.to_send in
    let (held, same) =
      read_loop-Holds serial_sending_buffer_size s.sending len (x ∷ xs) c.to_send in
    rw (e, serial_sending_buffer_read) (record { received = c.received; to_send = held }, same)

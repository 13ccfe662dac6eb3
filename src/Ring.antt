-- ===== src/Ring.antt =====
-- The two circular byte buffers of src/zsrmv.c, serial_receiving_buffer and serial_sending_buffer,
-- with their reading and writing indices. One slot stays free, so that equal indices mean empty.
pub mod Fifo
use mixed_trust_zsrmv_public.Base.{
  ℕ, zero, suc, ◌+◌, ◌-◌, ◌<◌, ◌≡◌, Bool, true, false, ◌&&◌, not, List, [], ◌∷◌, ◌==◌,
  if◌then◌else◌, update, length, ltb,
}

pub record Ring : Type 0 where
  pub buffer : ℕ → ℕ
  pub reading_index : ℕ
  pub writing_index : ℕ

-- (a == SIZE - 1) ? 0 : a + 1
abbrev pub circular_inc : ℕ → ℕ → ℕ
circular_inc size a = if a == (size - 1) then 0 else a + 1

abbrev pub is_empty : Ring → Bool
is_empty s = s.writing_index == s.reading_index

abbrev pub is_full : ℕ → Ring → Bool
is_full size s = circular_inc size s.writing_index == s.reading_index

abbrev pub put : ℕ → ℕ → Ring → Ring
put size v s = record s {
  buffer = update s.buffer s.writing_index v;
  writing_index = circular_inc size s.writing_index;
}

abbrev pub advance : ℕ → Ring → Ring
advance size s = record s { reading_index = circular_inc size s.reading_index }

-- while (INC(writing) != reading && i < len): the buffer, and how many bytes were written
unfoldable pub write_loop : ℕ → Ring → List ℕ → Ring × ℕ
write_loop size s [] = (s, 0)
write_loop size s (v ∷ vs) = elim (is_full size s) [
  | true ↦ (s, 0)
  | false ↦ let (s', wrote) = write_loop size (put size v s) vs in (s', suc wrote)
]

-- while (writing != reading && i < len): the buffer, and the bytes that were read
unfoldable pub read_loop : ℕ → Ring → ℕ → Ring × List ℕ
read_loop size s zero = (s, [])
read_loop size s (suc len) = elim (is_empty s) [
  | true ↦ (s, [])
  | false ↦
      let (s', rest) = read_loop size (advance size s) len in (s', s.buffer s.reading_index ∷ rest)
]

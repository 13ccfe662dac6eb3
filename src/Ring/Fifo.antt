-- ===== src/Ring/Fifo.antt =====
-- A circular buffer of src/zsrmv.c is a queue of bytes that holds at most SIZE - 1 of them.
use mathlib.Core.List.{append-nil, append_assoc}
use mixed_trust_zsrmv_public.Base.{
  ℕ, zero, suc, ◌+◌, ◌-◌, ◌<◌, ◌≡◌, refl, true, false, List, [], ◌∷◌, ◌++◌, arith, ◌==◌,
  if◌then◌else◌, update, length, length-append, take, drop, ltb, ap,
}
use mixed_trust_zsrmv_public.Ring.{
  Ring, circular_inc, is_empty, is_full, put, advance, write_loop, read_loop,
}

-- from index `i` on the slots hold the bytes `xs`
abbrev pub Slots : ℕ → (ℕ → ℕ) → ℕ → List ℕ → Type 0
Slots size f i [] = Unit
Slots size f i (x ∷ xs) = (f i ≡ x) × Slots size f (circular_inc size i) xs

-- the index that is k slots after i
abbrev pub slot : ℕ → ℕ → ℕ → ℕ
slot size i k = if ltb (i + k) size then i + k else i + k - size

-- The buffer holds the bytes `xs`, oldest first.
pub record Holds (size : ℕ) (s : Ring) (xs : List ℕ) : Type 0 where
  pub reading_in_range : s.reading_index < size
  pub fits : length xs < size
  pub writing : s.writing_index ≡ slot size s.reading_index (length xs)
  pub slots : Slots size s.buffer s.reading_index xs

Slots-snoc :
    (size : ℕ) (f : ℕ → ℕ) (i w v : ℕ) (xs : List ℕ)
    → Slots size f i xs
    → i < size
    → length xs < size
    → w ≡ slot size i (length xs)
    → Slots size (update f w v) i (xs ++ v ∷ [])
Slots-snoc size f i w v [] s h l e = ground arith
Slots-snoc size f i w v (x ∷ xs) s h l e = (
  ground arith,
  Slots-snoc size f (circular_inc size i) w v xs s.1 (ground arith) (omega arith) (ground arith),
)

-- the room that is left
abbrev pub room : ℕ → List ℕ → ℕ
room size xs = size - 1 - length xs

module _ (size : ℕ) where
  pub full-room : {s : Ring} (xs : List ℕ) → Holds size s xs → is_full size s ≡ (room size xs == 0)
  full-room xs h = ground arith

  pub empty-nil : {s : Ring} (x : ℕ) (xs : List ℕ) → Holds size s (x ∷ xs) → is_empty s ≡ false
  empty-nil x xs h = ground arith

  put-Holds :
      {s : Ring} (v : ℕ) (xs : List ℕ)
      → Holds size s xs
      → is_full size s ≡ false
      → Holds size (put size v s) (xs ++ v ∷ [])
  put-Holds {s} v xs h e = record {
    reading_in_range = h.reading_in_range;
    fits = ground (arith, length-append xs (v ∷ []), full-room xs h);
    writing = ground (arith, length-append xs (v ∷ []), full-room xs h);
    slots =
        Slots-snoc size s.buffer s.reading_index s.writing_index v xs h.slots h.reading_in_range
          h.fits h.writing;
  }

  advance-Holds :
      {s : Ring} (x : ℕ) (xs : List ℕ) → Holds size s (x ∷ xs) → Holds size (advance size s) xs
  advance-Holds {s} x xs h = record {
    reading_in_range = ground arith;
    fits = omega arith;
    writing = ground arith;
    slots = h.slots.1;
  }

  -- the outcome of a write that stored `new` behind `xs`
  abbrev Wrote : List ℕ → List ℕ → Ring × ℕ → Type 0
  Wrote xs new (s', wrote) = Holds size s' (xs ++ new) × (wrote ≡ length new)

  abbrev Got : List ℕ → List ℕ → Ring × List ℕ → Type 0
  Got rest bytes (s', read) = Holds size s' rest × (read ≡ bytes)

  Wrote-nil : (s : Ring) (xs : List ℕ) → Holds size s xs → Wrote xs [] (s, 0)
  Wrote-nil s xs h = (rw append-nil h, refl)

  write_loop-Wrote :
      (s : Ring) (xs vs : List ℕ) (k : ℕ)
      → Holds size s xs
      → k ≡ room size xs
      → Wrote xs (take k vs) (write_loop size s vs)
  unfolding write_loop
  write_loop-Wrote s xs [] zero h e = Wrote-nil s xs h
  write_loop-Wrote s xs [] (suc k) h e = Wrote-nil s xs h
  write_loop-Wrote s xs (v ∷ vs) zero h e =
      let full : is_full size s ≡ true = ground (arith, full-room xs h) in
      rw (full, write_loop) (Wrote-nil s xs h)
  write_loop-Wrote s xs (v ∷ vs) (suc k) h e =
      let more : is_full size s ≡ false = ground (arith, full-room xs h) in
      let (held, count) =
        write_loop-Wrote (put size v s) (xs ++ v ∷ []) vs k (put-Holds v xs h more)
          (omega (arith, length-append xs (v ∷ []))) in
      rw (more, write_loop) (rw append_assoc at held, ap suc count)

  -- Writing appends the longest prefix of the bytes that the buffer has room for, and returns its
  -- length.
  pub write_loop-Holds :
      (s : Ring) (xs vs : List ℕ)
      → Holds size s xs
      → Wrote xs (take (room size xs) vs) (write_loop size s vs)
  write_loop-Holds s xs vs h = write_loop-Wrote s xs vs (room size xs) h refl

  -- Reading takes the oldest bytes, as many as are asked for and there.
  pub read_loop-Holds :
      (s : Ring) (len : ℕ) (xs : List ℕ)
      → Holds size s xs
      → Got (drop len xs) (take len xs) (read_loop size s len)
  unfolding read_loop
  read_loop-Holds s zero xs h = (h, refl)
  read_loop-Holds s (suc len) [] h =
      let e : is_empty s ≡ true = ground arith in rw (e, read_loop) (h, refl)
  read_loop-Holds s (suc len) (x ∷ xs) h =
      let (rest, same) = read_loop-Holds (advance size s) len xs (advance-Holds x xs h) in
      rw (empty-nil x xs h, read_loop) (rest, ground (arith, h.slots.0, same))

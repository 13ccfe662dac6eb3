-- ===== src/Serial/Tasks/Sending.antt =====
-- The sending task of src/zsrmv.c sends what the buffer holds, in order and in small batches.
use mathlib.Core.Path.{subst, sym}
use mathlib.Core.List.{append_assoc, append-nil}
use mixed_trust_zsrmv_public.Base.{
  ℕ, zero, suc, ◌+◌, ◌-◌, ◌*◌, ◌≤◌, ◌<◌, ◌≡◌, refl, ap, ◌∙◌, inl, inr, true, false, Option, none,
  some, List, [], ◌∷◌, ◌++◌, arith, ltb, if◌then◌else◌, length, take, drop, Bool-cases, lt→ltb,
}
use mixed_trust_zsrmv_public.Serial.{Serial, serial_sending_buffer_read}
use mixed_trust_zsrmv_public.Serial.Laws.{Carries, length-take_le, serial_sending_buffer_read-Read}
use mixed_trust_zsrmv_public.Serial.Tasks.{
  Answers, Task, wait_for_reception, batch_size, send_batch, send_from, sleep, sending_round,
}

-- the bytes of some batches
abbrev pub stream : List (List ℕ) → List ℕ
stream [] = []
stream (b ∷ bs) = b ++ stream bs

-- each batch has from 1 to 8 bytes
abbrev pub Small : List (List ℕ) → Type 0
Small [] = Unit
Small (b ∷ bs) = (0 < length b) × (length b ≤ 8) × Small bs

-- The call ended, having sent `bytes` in small batches behind those of before, and left the serial
-- buffers as in `s`.
abbrev pub Sent : Serial → List (List ℕ) → List ℕ → Option Task → Type 0
Sent s before bytes none = ⊥
Sent s before bytes (some t) =
    (new : List (List ℕ)) × (t.sent ≡ before ++ new)
    × (stream new ≡ bytes)
    × Small new
    × (t.serial ≡ s)

pub take-drop : (n : ℕ) (xs : List ℕ) → take n xs ++ drop n xs ≡ xs
take-drop zero xs = refl
take-drop (suc n) [] = refl
take-drop (suc n) (x ∷ xs) = ap (λ l. x ∷ l) (take-drop n xs)

pub length-drop : (n : ℕ) (xs : List ℕ) → length (drop n xs) ≡ length xs - n
length-drop zero xs = omega arith
length-drop (suc n) [] = omega arith
length-drop (suc n) (x ∷ xs) = omega (arith, length-drop n xs)

length-take_of_le : (n : ℕ) (xs : List ℕ) → n ≤ length xs → length (take n xs) ≡ n
length-take_of_le zero xs h = refl
length-take_of_le (suc n) [] h = omega arith
length-take_of_le (suc n) (x ∷ xs) h = omega (arith, length-take_of_le n xs)

module _ (a : Answers) (polls : ℕ) where
  -- the module is not asked to stop, and a stopped reception goes on within the polls
  pub record Willing : Type 0 where
    pub runs : (n : ℕ) → a.kthread_should_stop n ≡ false
    pub resumes :
        (n : ℕ) → (j : ℕ) × (j < polls) × (a.serial_is_reception_stopped (n + 2 * j) ≡ false)

wait_more :
    (a : Answers) (polls n : ℕ)
    → a.serial_is_reception_stopped n ≡ true
    → a.kthread_should_stop (suc n) ≡ false
    → wait_for_reception a (suc polls) n ≡ wait_for_reception a polls (suc (suc n))
unfolding wait_for_reception
wait_more a polls n s r = rw (s, wait_for_reception) (rw (r, wait_for_reception) refl)

wait_over :
    (a : Answers) (polls n : ℕ)
    → a.serial_is_reception_stopped n ≡ false
    → wait_for_reception a (suc polls) n ≡ some (suc n)
unfolding wait_for_reception
wait_over a polls n s = rw (s, wait_for_reception) refl

wait_for_reception-ends :
    (a : Answers) (polls n j : ℕ)
    → ((m : ℕ) → a.kthread_should_stop m ≡ false)
    → j < polls
    → a.serial_is_reception_stopped (n + 2 * j) ≡ false
    → (m : ℕ) × (wait_for_reception a polls n ≡ some m)
wait_for_reception-ends a zero n j r l h = absurd (omega arith)
wait_for_reception-ends a (suc polls) n zero r l h =
    let e : n ≡ n + 2 * 0 = omega arith in
    let now : a.serial_is_reception_stopped n ≡ false = rw e h in (suc n, wait_over a polls n now)
wait_for_reception-ends a (suc polls) n (suc j) r l h =
    let e : suc (suc n) + 2 * j ≡ n + 2 * suc j = omega arith in
    let later : a.serial_is_reception_stopped (suc (suc n) + 2 * j) ≡ false = rw e h in
    let (m, ends) = wait_for_reception-ends a polls (suc (suc n)) j r (omega arith) later in
    elim (Bool-cases (a.serial_is_reception_stopped n)) [
      | inl s ↦ (m, wait_more a polls n s (r (suc n)) ∙ ends)
      | inr s ↦ (suc n, wait_over a polls n s)
    ]

-- one more batch in front
Sent-behind :
    (s : Serial) (before : List (List ℕ)) (batch rest : List ℕ) (o : Option Task)
    → 0 < length batch
    → length batch ≤ 8
    → Sent s (before ++ batch ∷ []) rest o
    → Sent s before (batch ++ rest) o
Sent-behind s before batch rest none l u h = h
Sent-behind s before batch rest (some t) l u (new, e, f, small, same) = (
  batch ∷ new,
  e ∙ append_assoc before (batch ∷ []) new,
  ap (λ r. batch ++ r) f,
  (l, u, small),
  same,
)

batch_small : (bytes : List ℕ) → length (take (batch_size bytes) bytes) ≡ batch_size bytes
batch_small bytes = length-take_of_le (batch_size bytes) bytes (ground arith)

module _ (a : Answers) (polls : ℕ) (w : Willing a polls) where
  send_from-step :
      (rounds : ℕ) (b : ℕ) (bs : List ℕ) (t : Task)
      → (n : ℕ) × (send_from a polls (suc rounds) (b ∷ bs) t
          ≡ send_from a polls rounds
              (drop (batch_size (b ∷ bs)) (b ∷ bs))
              (send_batch (b ∷ bs) n t))
  unfolding send_from
  send_from-step rounds b bs t =
      let (j, l, e) = w.resumes (suc t.asked) in
      let (n, ends) = wait_for_reception-ends a polls (suc t.asked) j w.runs l e in
      (n, rw (w.runs t.asked, send_from) (rw (ends, send_from) refl))

  send_from-Sent :
      (rounds : ℕ) (bytes : List ℕ) (t : Task)
      → length bytes ≤ 8 * rounds
      → Sent t.serial t.sent bytes (send_from a polls (suc rounds) bytes t)
  unfolding send_from send_batch
  send_from-Sent rounds [] t h = ([], sym (append-nil t.sent), refl, tt, refl)
  send_from-Sent zero (b ∷ bs) t h = absurd (omega arith)
  send_from-Sent (suc rounds) (b ∷ bs) t h =
      let bytes = b ∷ bs in
      let n = batch_size bytes in
      let (m, step) = send_from-step (suc rounds) b bs t in
      let rest =
        send_from-Sent rounds (drop n bytes) (send_batch bytes m t)
          (ground (arith, length-drop n bytes)) in
      let size = batch_small bytes in
      rw step (
        subst
          (λ all.
            Sent t.serial t.sent all
              (send_from a polls (suc rounds) (drop n bytes) (send_batch bytes m t)))
          (take-drop n bytes)
          (Sent-behind t.serial t.sent (take n bytes) (drop n bytes) _ (ground (arith, size))
            (ground (arith, size)) rest))

  send_read-Sent :
      (rounds : ℕ) (bytes : List ℕ) (t : Task)
      → length bytes ≤ 8 * rounds
      → Sent t.serial t.sent bytes
          (if ltb 0 (length bytes) then send_from a polls (suc rounds) bytes t else some (sleep t))
  unfolding sleep
  send_read-Sent rounds [] t h = ([], sym (append-nil t.sent), refl, tt, refl)
  send_read-Sent rounds (b ∷ bs) t h =
      let more : ltb 0 (suc (length bs)) ≡ true = lt→ltb 0 (suc (length bs)) (omega arith) in
      rw more (send_from-Sent rounds (b ∷ bs) t h)

  -- A serial line that is not stopped for good, and a sending buffer that holds `out`: one round of
  -- the sending task ends, takes the oldest 100 bytes, or all if there are fewer, and sends them in
  -- order, in batches of 1 to 8 bytes.
  pub sending_round-Sent :
      (rounds : ℕ) (t : Task) (inp out : List ℕ)
      → 13 ≤ rounds
      → Carries t.serial inp out
      → (s : Serial) × Carries s inp (drop 100 out)
        × Sent s t.sent (take 100 out) (sending_round a polls (suc rounds) t)
  unfolding sending_round sleep
  sending_round-Sent rounds t inp out h c =
      let r = serial_sending_buffer_read t.serial 100 in
      let (carries, same) = serial_sending_buffer_read-Read t.serial inp out 100 c in
      let some_bytes : length r.1 ≤ 8 * rounds = rw same (omega (arith, length-take_le 100 out)) in
      (
        r.0,
        carries,
        subst (λ b. Sent r.0 t.sent b (sending_round a polls (suc rounds) t)) same
            (send_read-Sent rounds r.1 (record t { serial = r.0 }) some_bytes),
      )

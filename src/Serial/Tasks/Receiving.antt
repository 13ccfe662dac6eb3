-- ===== src/Serial/Tasks/Receiving.antt =====
-- The receiving task of src/zsrmv.c stores what the line gives, and does not end a round in which
-- the module is asked to stop.
use mathlib.Core.Path.{subst, sym}
use mathlib.Core.List.{append_assoc, append-nil}
use mixed_trust_zsrmv_public.Base.{
  ℕ, zero, suc, ◌≤◌, ◌≡◌, refl, ◌∙◌, inl, inr, Bool, true, false, Option, none, some, List, [], ◌∷◌,
  ◌++◌, arith, ltb, length, Bool-cases, Option-cases, length-append, lt→ltb,
}
use mixed_trust_zsrmv_public.Ring.Fifo.{room}
use mixed_trust_zsrmv_public.Serial.{serial_receiving_buffer_size, serial_receiving_buffer_write}
use mixed_trust_zsrmv_public.Serial.Laws.{Carries, serial_receiving_buffer_write-Carries}
use mixed_trust_zsrmv_public.Serial.Tasks.{
  Answers, Task, store, receive_one, receive_from, receiver_round,
}
use mixed_trust_zsrmv_public.Serial.Tasks.Sending.{stream}
use mixed_trust_zsrmv_public.Serial.Tasks.Drain.{take_all}

store-asked : (bytes : List ℕ) (t : Task) → (store bytes t).asked ≡ t.asked
unfolding store
store-asked bytes t = elim (Bool-cases (ltb 0 (length bytes))) [
  | inl b ↦ rw b refl
  | inr b ↦ rw b refl
]

receive_one-asked : (a : Answers) (t : Task) → (receive_one a t).1.asked ≡ suc t.asked
unfolding receive_one
receive_one-asked a t = elim (Option-cases (a.mavlinkserhb_recv t.asked)) [
  | inl e ↦ rw (e, receive_one) refl
  | inr ((bytes, ex), e) ↦
      rw (e, receive_one) (store-asked bytes (record t { asked = suc t.asked }))
]

-- the three ways on after a read
module _ (a : Answers) (rounds : ℕ) (t : Task) where
  receive_more :
      (receive_one a t).0 ≡ false
      → receive_from a (suc rounds) t ≡ receive_from a rounds (receive_one a t).1
  unfolding receive_from
  receive_more e = rw (e, receive_from) refl

  abbrev asked_then : Task
  asked_then = record (receive_one a t).1 { asked = suc (receive_one a t).1.asked }

  receive_again :
      (receive_one a t).0 ≡ true
      → a.kthread_should_stop (receive_one a t).1.asked ≡ true
      → receive_from a (suc rounds) t ≡ receive_from a rounds asked_then
  unfolding receive_from
  receive_again e stop = rw (e, receive_from) (rw (stop, receive_from) refl)

  receive_end :
      (receive_one a t).0 ≡ true
      → a.kthread_should_stop (receive_one a t).1.asked ≡ false
      → receive_from a (suc rounds) t ≡ some asked_then
  unfolding receive_from
  receive_end e stop = rw (e, receive_from) (rw (stop, receive_from) refl)

receive_from-none :
    (a : Answers) (rounds : ℕ) (t : Task)
    → ((n : ℕ) → t.asked ≤ n → a.kthread_should_stop n ≡ true)
    → receive_from a rounds t ≡ none
unfolding receive_from
receive_from-none a zero t h = refl
receive_from-none a (suc rounds) t h =
    let r = receive_one a t in
    let later : r.1.asked ≡ suc t.asked = receive_one-asked a t in
    let stop : a.kthread_should_stop r.1.asked ≡ true = h r.1.asked (omega (arith, later)) in
    elim (Bool-cases r.0) [
      | inl e ↦
          receive_again a rounds t e stop
          ∙ receive_from-none a rounds (record r.1 { asked = suc r.1.asked })
              (λ n l. h n (omega (arith, later)))
      | inr e ↦
          receive_more a rounds t e
          ∙ receive_from-none a rounds r.1 (λ n l. h n (omega (arith, later)))
    ]

-- If the module is asked to stop, for good, by the time that a round of the receiving task has
-- started, the round does not end, whatever the line gives and however many reads are made.
pub receiver_round-stuck :
    (a : Answers) (rounds : ℕ) (t : Task)
    → ((n : ℕ) → t.asked ≤ n → a.kthread_should_stop n ≡ true)
    → receiver_round a rounds t ≡ none
unfolding receiver_round
receiver_round-stuck a rounds t h =
    rw (receive_from-none a rounds (record t { rts = true }) h, receiver_round) refl

-- From question `n` on the line gives these pieces, the last of them with the report that it is
-- exhausted, and then the module is not asked to stop.
abbrev pub Feeds : Answers → ℕ → List (List ℕ) → Type 0
Feeds a n [] = ⊥
Feeds a n (b ∷ []) =
    (a.mavlinkserhb_recv n ≡ some (b, true)) × (a.kthread_should_stop (suc n) ≡ false)
Feeds a n (b ∷ c ∷ cs) = (a.mavlinkserhb_recv n ≡ some (b, false)) × Feeds a (suc n) (c ∷ cs)

-- The reads ended, with the pieces stored behind the bytes of before.
abbrev pub Received : List ℕ → List ℕ → Option Task → Type 0
Received inp out none = ⊥
Received inp out (some t) = Carries t.serial inp out

store-Carries :
    (bytes inp out : List ℕ) (t : Task)
    → Carries t.serial inp out
    → length bytes ≤ room serial_receiving_buffer_size inp
    → Carries (store bytes t).serial (inp ++ bytes) out
unfolding store
store-Carries [] inp out t c h = subst (λ l. Carries t.serial l out) (sym (append-nil inp)) c
store-Carries (b ∷ bs) inp out t c h =
    let bytes = b ∷ bs in
    let (carries, wrote, lost) = serial_receiving_buffer_write-Carries t.serial inp out c bytes in
    let more : ltb 0 (length bytes) ≡ true = lt→ltb 0 (length bytes) (omega arith) in
    rw more (
      subst (λ l. Carries (serial_receiving_buffer_write t.serial bytes).0 (inp ++ l) out)
        (take_all (room serial_receiving_buffer_size inp) bytes h) carries)

receive_one-Carries :
    (a : Answers) (bytes inp out : List ℕ) (ex : Bool) (t : Task)
    → a.mavlinkserhb_recv t.asked ≡ some (bytes, ex)
    → Carries t.serial inp out
    → length bytes ≤ room serial_receiving_buffer_size inp
    → ((receive_one a t).0 ≡ ex) × Carries (receive_one a t).1.serial (inp ++ bytes) out
unfolding receive_one
receive_one-Carries a bytes inp out ex t e c h =
    rw (e, receive_one) (refl, store-Carries bytes inp out (record t { asked = suc t.asked }) c h)

-- The line gives some pieces, reports with the last that it is exhausted, and the module is not
-- asked to stop then. If the receiving buffer has room for all of them, as many reads as pieces end
-- the loop of the receiving task, with all bytes stored in order.
pub receive_from-Received :
    (a : Answers) (pieces : List (List ℕ)) (rounds : ℕ) (t : Task) (inp out : List ℕ)
    → Feeds a t.asked pieces
    → Carries t.serial inp out
    → length (stream pieces) ≤ room serial_receiving_buffer_size inp
    → length pieces ≤ rounds
    → Received (inp ++ stream pieces) out (receive_from a rounds t)
receive_from-Received a [] rounds t inp out f c h l = absurd f
receive_from-Received a (b ∷ bs) zero t inp out f c h l = absurd (omega arith)
receive_from-Received a (b ∷ []) (suc rounds) t inp out f c h l =
    let (e, carries) =
      receive_one-Carries a b inp out true t f.0 c (omega (arith, h, length-append b [])) in
    let later = receive_one-asked a t in
    let go : a.kthread_should_stop (receive_one a t).1.asked ≡ false = rw later f.1 in
    rw (receive_end a rounds t e go)
      (subst (λ l. Carries (receive_one a t).1.serial (inp ++ l) out) (sym (append-nil b)) carries)
receive_from-Received a (b ∷ d ∷ ds) (suc rounds) t inp out f c h l =
    let sum = length-append b (stream (d ∷ ds)) in
    let (e, carries) = receive_one-Carries a b inp out false t f.0 c (omega (arith, h, sum)) in
    let later = receive_one-asked a t in
    let t1 = (receive_one a t).1 in
    let feeds : Feeds a t1.asked (d ∷ ds) = rw later f.1 in
    let ih =
      receive_from-Received a (d ∷ ds) rounds t1 (inp ++ b) out feeds carries
        (omega (arith, h, sum, length-append inp b)) (omega arith) in
    rw (receive_more a rounds t e) (
      subst (λ l. Received l out (receive_from a rounds t1)) (append_assoc inp b (stream (d ∷ ds)))
        ih)

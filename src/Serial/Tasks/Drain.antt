-- ===== src/Serial/Tasks/Drain.antt =====
-- What a program hands over for sending leaves the serial line in order.
use mathlib.Core.Path.{subst, sym}
use mathlib.Core.List.{append_assoc, append-nil}
use mixed_trust_zsrmv_public.Base.{
  ℕ, zero, suc, ◌*◌, ◌≤◌, ◌≡◌, refl, ap, ◌∙◌, inl, inr, Option, none, some, List, [], ◌∷◌, ◌++◌,
  arith, length, take, drop, Option-cases,
}
use mixed_trust_zsrmv_public.Serial.{
  Serial, serial_sending_buffer_size, serial_sending_buffer_write,
}
use mixed_trust_zsrmv_public.Ring.Fifo.{room}
use mixed_trust_zsrmv_public.Serial.Laws.{Carries, serial_sending_buffer_write-Carries}
use mixed_trust_zsrmv_public.Serial.Tasks.{Answers, Task, sending_round}
use mixed_trust_zsrmv_public.Serial.Tasks.Sending.{
  stream, Sent, Willing, take-drop, length-drop, sending_round-Sent,
}

-- `n` rounds of the task
unfoldable pub after_rounds : Answers → ℕ → ℕ → ℕ → Task → Option Task
after_rounds a polls rounds zero t = some t
after_rounds a polls rounds (suc n) t = elim (sending_round a polls rounds t) [
  | none ↦ none
  | some t' ↦ after_rounds a polls rounds n t'
]

stream-append : (bs cs : List (List ℕ)) → stream (bs ++ cs) ≡ stream bs ++ stream cs
stream-append [] cs = refl
stream-append (b ∷ bs) cs =
    ap (λ l. b ++ l) (stream-append bs cs) ∙ sym (append_assoc b (stream bs) (stream cs))

-- The rounds ended, the bytes went out behind those of before, and no byte is left to send.
abbrev pub Drained : List ℕ → List ℕ → List ℕ → Option Task → Type 0
Drained inp before bytes none = ⊥
Drained inp before bytes (some t) = Carries t.serial inp [] × (stream t.sent ≡ before ++ bytes)

nil_of_short : (out : List ℕ) → length out ≤ 100 * 0 → out ≡ []
nil_of_short [] h = refl
nil_of_short (b ∷ bs) h = absurd (omega arith)

-- a round that sent the first bytes, before rounds that send the rest
Drained-behind :
    (s : Serial) (sent : List (List ℕ)) (inp front rest out : List ℕ) (t : Task) (o : Option Task)
    → Sent s sent front (some t)
    → front ++ rest ≡ out
    → Drained inp (stream t.sent) rest o
    → Drained inp (stream sent) out o
Drained-behind s sent inp front rest out t none h e d = d
Drained-behind s sent inp front rest out t (some t') h e d =
    let (new, told, bytes, small, same) = h in
    (
      d.0,
      d.1
          ∙ ap (λ l. stream l ++ rest) told
          ∙ ap (λ l. l ++ rest) (stream-append sent new)
          ∙ ap (λ l. (stream sent ++ l) ++ rest) bytes
          ∙ append_assoc (stream sent) front rest
          ∙ ap (λ l. stream sent ++ l) e,
    )

pub take_all : (n : ℕ) (xs : List ℕ) → length xs ≤ n → take n xs ≡ xs
take_all zero [] h = refl
take_all zero (x ∷ xs) h = absurd (omega arith)
take_all (suc n) [] h = refl
take_all (suc n) (x ∷ xs) h = ap (λ l. x ∷ l) (take_all n xs (omega arith))

module _ (a : Answers) (polls : ℕ) (w : Willing a polls) (rounds : ℕ) where
  drain :
      (n : ℕ) (t : Task) (inp out : List ℕ)
      → 13 ≤ rounds
      → length out ≤ 100 * n
      → Carries t.serial inp out
      → Drained inp (stream t.sent) out (after_rounds a polls (suc rounds) n t)
  unfolding after_rounds
  drain zero t inp out h l c =
      let e = nil_of_short out l in
      (
        subst (λ o. Carries t.serial inp o) e c,
        sym (append-nil (stream t.sent)) ∙ ap (λ l. stream t.sent ++ l) (sym e),
      )
  drain (suc n) t inp out h l c =
      let (s, carries, sent) = sending_round-Sent a polls w rounds t inp out h c in
      elim (Option-cases (sending_round a polls (suc rounds) t)) [
        | inl e ↦ absurd (rw e at sent)
        | inr (t', e) ↦
            let ok : Sent s t.sent (take 100 out) (some t') = rw e at sent in
            let same : t'.serial ≡ s = ok.4 in
            let left : Carries t'.serial inp (drop 100 out) = rw same carries in
            let ih = drain n t' inp (drop 100 out) h (omega (arith, length-drop 100 out)) left in
            let next : after_rounds a polls (suc rounds) (suc n) t
                ≡ after_rounds a polls (suc rounds) n t' =
              rw (e, after_rounds) refl in
            rw next (
              Drained-behind s t.sent inp (take 100 out) (drop 100 out) out t' _ ok
                (take-drop 100 out) ih)
      ]

  -- On a serial line that is not stopped for good, in a module that is not asked to stop, when a
  -- program hands over bytes for which the sending buffer has room, eleven rounds of the sending
  -- task, each with rounds for 13 batches and one test, empty the buffer, and send what it held and
  -- then the bytes, in order and behind what was sent before.
  pub handed_over-Drained :
      (t : Task) (inp out bytes : List ℕ)
      → 13 ≤ rounds
      → Carries t.serial inp out
      → length bytes ≤ room serial_sending_buffer_size out
      → Drained inp (stream t.sent) (out ++ bytes) (
          after_rounds a polls
            (suc rounds)
            11
            (record t { serial = (serial_sending_buffer_write t.serial bytes).0 }))
  handed_over-Drained t inp out bytes h c l =
      let (carries, wrote) = serial_sending_buffer_write-Carries t.serial inp out c bytes in
      let all = take_all (room serial_sending_buffer_size out) bytes l in
      let fits = carries.to_send.fits in
      let t' = record t { serial = (serial_sending_buffer_write t.serial bytes).0 } in
      let c' : Carries t'.serial inp (out ++ bytes) =
        subst (λ b. Carries t'.serial inp (out ++ b)) all carries in
      drain 11 t' inp (out ++ bytes) h (omega (arith, c'.to_send.fits)) c'

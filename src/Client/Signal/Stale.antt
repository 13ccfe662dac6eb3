-- ===== src/Client/Signal/Stale.antt =====
-- The deregistration of an enforcement handler in lib/libzsv.c.
use mixed_trust_zsrmv_public.Base.{
  ℕ, suc, ◌<◌, ◌≡◌, refl, inl, inr, true, false, Bool-cases, Option, none, some, ap, ◌∙◌, List, [],
  ◌∷◌, length, arith, ◌==◌, has,
}
use mixed_trust_zsrmv_public.Base.Int.{ℤ, pos, eqb_ℤ}
use mixed_trust_zsrmv_public.Sched.Commands.{ApiCall}
use mixed_trust_zsrmv_public.Client.Handlers.{Handlers, get_threaded_signal_handler_record}
use mixed_trust_zsrmv_public.Client.Handlers.Segment.{Between, IsRing}
use mixed_trust_zsrmv_public.Client.Handlers.Find.{first_for, get-first_for}
use mixed_trust_zsrmv_public.Client.Signal.{
  Client, System, did, free_record, drop_handler, zsv_stop_enforcement_handler,
}

-- The loop of get_threaded_signal_handler_record for reserve `rid`, with the list's head `h`, comes
-- from a record to `a`, over records that are for other reserves.
pub data Visits (s : Handlers) (rid : ℤ) (h a : ℕ) : ℕ → Type 0 where
  here : {x : ℕ} → x ≡ a → Visits s rid h a x
  over :
      {x y : ℕ}
      → eqb_ℤ (s.recs x).rid rid ≡ false
      → s.next x ≡ some y
      → (y == h) ≡ false
      → Visits s rid h a y
      → Visits s rid h a x

-- the search for the reserve reads record `a`
abbrev pub Reads : Handlers → ℤ → ℕ → Type 0
Reads s rid a = (h : ℕ) × (s.head ≡ some h) × Visits s rid h a h

-- The call ended with 0, gave record `a` back, and left a list in which the next search for the
-- reserve reads it.
abbrev pub Stale : ℤ → ℕ → Client → Option (Client × ℤ) → Type 0
Stale rid a c none = ⊥
Stale rid a c (some (c', ret)) = (ret ≡ pos 0) × (c'.freed ≡ a ∷ c.freed) × Reads c'.handlers rid a

-- records other than `a` are as before
abbrev SameBut : ℕ → Handlers → Handlers → Type 0
SameBut a s s' = (i : ℕ) → (i == a) ≡ false → (s'.recs i ≡ s.recs i) × (s'.next i ≡ s.next i)

Between-Visits :
    (s s' : Handlers) (rid : ℤ) (h a x : ℕ) (xs : List ℕ)
    → SameBut a s s'
    → Between s.next s.prev x xs h
    → has h xs ≡ false
    → first_for s.recs rid (x ∷ xs) ≡ some a
    → Visits s' rid h a x
Between-Visits s s' rid h a x [] same b out first = here (ground arith)
Between-Visits s s' rid h a x (y ∷ ys) same b out first = elim (Bool-cases (x == a)) [
  | inl e ↦ here (ground arith)
  | inr e ↦
      let (rec, next) = same x e in
      let other : eqb_ℤ (s.recs x).rid rid ≡ false = ground arith in
      over (rw rec other) (next ∙ b.0.0) (ground arith)
        (Between-Visits s s' rid h a y ys same b.1 (ground arith) (ground arith))
]

-- what the call leaves in the list, whatever free writes
free_record-SameBut :
    (os : System) (a : ℕ) (c : Client) → SameBut a c.handlers (free_record os a c).handlers
unfolding free_record
free_record-SameBut os a c i e = (ground arith, ground arith)

IsRing-Reads :
    (os : System) (rid : ℤ) (a : ℕ) (xs : List ℕ) (c : Client)
    → IsRing c.handlers xs
    → first_for c.handlers.recs rid xs ≡ some a
    → Reads (free_record os a c).handlers rid a
unfolding free_record
IsRing-Reads os rid a [] c h first = absurd cc
IsRing-Reads os rid a (x ∷ xs) c h first = (
  x,
  h.0,
  Between-Visits c.handlers (free_record os a c).handlers rid x a x xs (free_record-SameBut os a c)
      h.1 (ground arith) first,
)

stopped-Stale :
    (os : System) (unset : ApiCall) (signo rid : ℤ) (a : ℕ) (xs : List ℕ) (c : Client)
    → IsRing c.handlers xs
    → first_for c.handlers.recs rid xs ≡ some a
    → Stale rid a c
        (some (drop_handler os unset signo rid a (record c { installed = false }), pos 0))
unfolding drop_handler did free_record
stopped-Stale os unset signo rid a xs c h first = (refl, refl, IsRing-Reads os rid a xs _ h first)

-- A task gives up the handler of a reserve for which a well-formed ring, with fuel for it, has `a`
-- as first record, and sigaction succeeds. The call returns 0 and frees the record, but leaves it
-- in the ring: whatever free leaves in the memory of the record, the next search for the reserve
-- goes from the head over records for other reserves to the freed record, and reads it.
pub zsv_stop_enforcement_handler-Stale :
    (os : System) (unset : ApiCall) (fuel : ℕ) (signo rid : ℤ) (a : ℕ) (xs : List ℕ) (c : Client)
    → IsRing c.handlers xs
    → length xs < suc fuel
    → first_for c.handlers.recs rid xs ≡ some a
    → os.sigaction c ≡ true
    → Stale rid a c (zsv_stop_enforcement_handler os unset fuel signo rid c)
unfolding zsv_stop_enforcement_handler drop_handler did
zsv_stop_enforcement_handler-Stale os unset fuel signo rid a xs c h l first ok =
    let found : get_threaded_signal_handler_record fuel c.handlers rid ≡ some (some a) =
      get-first_for c.handlers xs rid fuel h l ∙ ap (λ p. some p) first in
    rw ok (rw found (stopped-Stale os unset signo rid a xs c h first))

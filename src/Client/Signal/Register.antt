-- ===== src/Client/Signal/Register.antt =====
-- The registration of an enforcement handler in lib/libzsv.c.
use mixed_trust_zsrmv_public.Base.{
  ℕ, suc, ◌<◌, ◌≡◌, refl, inl, inr, true, false, Option, none, some, ap, ◌∙◌, List, [], ◌∷◌, arith,
  length, ◌==◌, Bool-cases, Option-cases, has, update, ==→eq, eq→==, length-append, ==_symm,
}
use mixed_trust_zsrmv_public.Base.Int.{ℤ, pos, negsuc, eqb_ℤ}
use mixed_trust_zsrmv_public.Sched.Commands.{ApiCall}
use mixed_trust_zsrmv_public.Client.Handlers.{
  Handler, Handlers, get_threaded_signal_handler_record, add_threaded_signal_handler_record,
}
use mixed_trust_zsrmv_public.Client.Handlers.Segment.{IsRing}
use mixed_trust_zsrmv_public.Client.Handlers.Find.{first_for, get-first_for}
use mixed_trust_zsrmv_public.Client.Handlers.Add.{
  add_record, Relinked, add_threaded_signal_handler_record-Relinked,
}
use mixed_trust_zsrmv_public.Client.Signal.{
  Client, System, did, find_or_add, register, set_handler, zsv_fork_enforcement_handler,
}

eqb_ℤ_self : (a : ℤ) → eqb_ℤ a a ≡ true
eqb_ℤ_self (pos n) = ground arith
eqb_ℤ_self (negsuc n) = ground arith

-- what the library knows of a reserve after the registration of a handler
abbrev pub entry : ℤ → ℕ → ℕ → ℤ → Handler
entry rid handler param fd = record {
  rid = rid;
  zsv_user_enforcement_handler = handler;
  zsv_user_enforcement_handler_param = param;
  zsv_enforcement_schedfd = fd;
}

==_symm-true : (a b : ℕ) → (a == b) ≡ true → (b == a) ≡ true
==_symm-true a b h = ground arith

-- a record that is written for its reserve is found as before
first_for-update :
    (recs : ℕ → Handler) (rid : ℤ) (a : ℕ) (v : Handler) (xs : List ℕ)
    → v.rid ≡ rid
    → first_for recs rid xs ≡ some a
    → first_for (update recs a v) rid xs ≡ some a
first_for-update recs rid a v [] e f = cc
first_for-update recs rid a v (x ∷ xs) e f = elim (Bool-cases (x == a)) [
  | inl q ↦
      let at : update recs a v x ≡ v = rw (==_symm-true x a q) refl in
      let same : eqb_ℤ v.rid rid ≡ true = rw e (eqb_ℤ_self rid) in
      let here : some x ≡ some a = ap (λ (n : ℕ). some n) (==→eq x a q) in rw at (rw same here)
  | inr q ↦
      let at : update recs a v x ≡ recs x = rw (==_symm x a q) refl in
      elim (Bool-cases (eqb_ℤ (recs x).rid rid)) [
        | inl b ↦ rw at (rw b (rw b at f))
        | inr b ↦ rw at (rw b (first_for-update recs rid a v xs e (rw b at f)))
      ]
]

-- The registration ended, left a well-formed ring, and made the search find the given entry.
abbrev pub Registered : ℕ → ℤ → Handler → List ℕ → Option (Client × ℤ) → Type 0
Registered fuel rid v ys none = ⊥
Registered fuel rid v ys (some (c', ret)) =
    IsRing c'.handlers ys
    × (a : ℕ) × (get_threaded_signal_handler_record (suc fuel) c'.handlers rid ≡ some (some a))
    × (c'.handlers.recs a ≡ v)

-- the ring after a registration, where `new` is the address of the memory for a new record
abbrev pub ring_with : (ℕ → Handler) → ℤ → ℕ → List ℕ → List ℕ
ring_with recs rid new xs = elim (first_for recs rid xs) [ some a ↦ xs | none ↦ add_record new xs ]

register_handlers :
    (os : System) (unset : ApiCall) (fd rid tid signo : ℤ) (c : Client)
    → (register os unset fd rid tid signo c).0.handlers ≡ c.handlers
unfolding register did
register_handlers os unset fd rid tid signo c = elim (Bool-cases (os.sigaction c)) [
  | inl e ↦ rw e refl
  | inr e ↦ rw e refl
]

IsRing-set_handler :
    (a : ℕ) (rid fd : ℤ) (handler param : ℕ) (s : Handlers) (ys : List ℕ)
    → IsRing s ys
    → IsRing (set_handler a rid handler param fd s) ys
IsRing-set_handler a rid fd handler param s [] h = h
IsRing-set_handler a rid fd handler param s (y ∷ ys) h = h

length-add_record : (r : ℕ) (xs : List ℕ) → length (add_record r xs) ≡ suc (length xs)
length-add_record r [] = refl
length-add_record r (x ∷ xs) = ground (arith, length-append xs (x ∷ []))

-- the end of the registration, once the record `a` is in the ring
register-Registered :
    (os : System) (unset : ApiCall) (fuel : ℕ) (tid signo fd rid : ℤ) (handler param : ℕ)
    → (a : ℕ) (ys : List ℕ) (c : Client) → IsRing c.handlers ys
    → length ys < suc (suc fuel)
    → first_for (update c.handlers.recs a (entry rid handler param fd)) rid ys ≡ some a
    → Registered fuel rid (entry rid handler param fd) ys (
        some (
          register os unset fd rid tid signo
            (record c { handlers = set_handler a rid handler param fd c.handlers })))
register-Registered os unset fuel tid signo fd rid handler param a ys c h l first =
    let s' = set_handler a rid handler param fd c.handlers in
    let c1 = record c { handlers = s' } in
    let ring = IsRing-set_handler a rid fd handler param c.handlers ys h in
    rw (register_handlers os unset fd rid tid signo c1) (
      ring,
      a,
      get-first_for s' ys rid (suc fuel) ring l ∙ ap (λ p. some p) first,
      rw (eq→== a a refl) refl,
    )

first_for-add_record :
    (recs : ℕ → Handler) (rid : ℤ) (new : ℕ) (v : Handler) (xs : List ℕ)
    → v.rid ≡ rid
    → first_for (update recs new v) rid (add_record new xs) ≡ some new
first_for-add_record recs rid new v [] e =
    let at : update recs new v new ≡ v = rw (eq→== new new refl) refl in
    let same : eqb_ℤ v.rid rid ≡ true = rw e (eqb_ℤ_self rid) in rw at (rw same refl)
first_for-add_record recs rid new v (x ∷ xs) e =
    let at : update recs new v new ≡ v = rw (eq→== new new refl) refl in
    let same : eqb_ℤ v.rid rid ≡ true = rw e (eqb_ℤ_self rid) in rw at (rw same refl)

module _ (os : System) (unset : ApiCall) (fuel : ℕ) (tid signo fd rid : ℤ) (handler param : ℕ)
    (xs : List ℕ) (c : Client) where
  fork_known :
      (a : ℕ)
      → IsRing c.handlers xs
      → length xs < suc fuel
      → first_for c.handlers.recs rid xs ≡ some a
      → Registered fuel rid
          (entry rid handler param fd)
          xs
          (zsv_fork_enforcement_handler os unset fuel tid signo fd rid handler param c)
  unfolding zsv_fork_enforcement_handler find_or_add
  fork_known a h l first =
      let found : get_threaded_signal_handler_record fuel c.handlers rid ≡ some (some a) =
        get-first_for c.handlers xs rid fuel h l ∙ ap (λ p. some p) first in
      let kept =
        first_for-update c.handlers.recs rid a (entry rid handler param fd) xs refl first in
      rw (found, zsv_fork_enforcement_handler)
        (register-Registered os unset fuel tid signo fd rid handler param a xs c h (omega arith)
          kept)

  fork_added :
      (new : ℕ) (s : Handlers)
      → IsRing c.handlers xs
      → length xs < suc fuel
      → first_for c.handlers.recs rid xs ≡ none
      → os.malloc c ≡ some new
      → add_threaded_signal_handler_record new c.handlers ≡ some s
      → IsRing s (add_record new xs)
      → Registered fuel rid
          (entry rid handler param fd)
          (add_record new xs)
          (zsv_fork_enforcement_handler os unset fuel tid signo fd rid handler param c)
  unfolding zsv_fork_enforcement_handler find_or_add
  fork_added new s h l first ok added ring =
      let found : get_threaded_signal_handler_record fuel c.handlers rid ≡ some none =
        get-first_for c.handlers xs rid fuel h l ∙ ap (λ p. some p) first in
      let front = first_for-add_record s.recs rid new (entry rid handler param fd) xs refl in
      rw (found, zsv_fork_enforcement_handler)
        (rw (ok, zsv_fork_enforcement_handler)
          (rw (added, zsv_fork_enforcement_handler)
            (register-Registered os unset fuel tid signo fd rid handler param new
              (add_record new xs) (record c { handlers = s }) ring
              (omega (arith, length-add_record new xs)) front)))

  -- A task registers a handler for a reserve, in a library whose ring is well-formed, with fuel for
  -- it, and whose malloc gives memory that is not in the ring. Whether or not the system calls at
  -- the end succeed, the ring is well-formed afterwards, with a new record as its head if there was
  -- none for the reserve and with the same records otherwise, and the search for the reserve gives
  -- a record with the handler, its parameter and the device.
  pub zsv_fork_enforcement_handler-Registered :
      (new : ℕ)
      → IsRing c.handlers xs
      → length xs < suc fuel
      → os.malloc c ≡ some new
      → has new xs ≡ false
      → Registered fuel rid
          (entry rid handler param fd)
          (ring_with c.handlers.recs rid new xs)
          (zsv_fork_enforcement_handler os unset fuel tid signo fd rid handler param c)
  zsv_fork_enforcement_handler-Registered new h l ok fresh =
      elim (Option-cases (first_for c.handlers.recs rid xs)) [
        | inr (a, e) ↦ rw (e, ring_with) (fork_known a h l e)
        | inl e ↦
            let added = add_threaded_signal_handler_record-Relinked c.handlers xs new h fresh in
            elim (Option-cases (add_threaded_signal_handler_record new c.handlers)) [
              | inl none' ↦ absurd (rw none' at added)
              | inr (s, e') ↦
                  let relinked : Relinked c.handlers (add_record new xs) (some s) =
                    rw e' at added in
                  rw (e, ring_with) (fork_added new s h l e ok e' relinked.0)
            ]
      ]

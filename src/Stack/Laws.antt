-- ===== src/Stack/Laws.antt =====
-- The stacks of src/zsrmv.c against lists, last in first out.
use mathlib.Core.Path.{subst}
use mixed_trust_zsrmv_public.Base.{
  ℕ, zero, suc, ◌<◌, ◌≤◌, ◌≡◌, refl, ◌⊎◌, inl, inr, true, false, List, [], ◌∷◌, arith, update,
  length, sym, ap, ◌∙◌, Bool-cases, ltb,
}
use mixed_trust_zsrmv_public.Base.Int.{ℤ, pos, negsuc, suc_ℤ}
use mixed_trust_zsrmv_public.Links.{max_reserves}
use mixed_trust_zsrmv_public.Stack.{
  Stack, push, pop_at, push_to_reschedule, pop_to_reschedule, push_to_activate, pop_to_activate,
}

-- the first `length xs` slots hold `xs`, the newest item last
abbrev pub Piled : (ℕ → ℕ) → List ℕ → Type 0
Piled f [] = Unit
Piled f (x ∷ xs) = (f (length xs) ≡ x) × Piled f xs

-- the index of the newest of n items
abbrev pub top_of : ℕ → ℤ
top_of zero = negsuc 0
top_of (suc n) = pos n

pub record IsStack (s : Stack) (xs : List ℕ) : Type 0 where
  pub items : Piled s.stack xs
  pub top : s.top ≡ top_of (length xs)
  pub fits : length xs ≤ max_reserves

Piled-update :
    (f : ℕ → ℕ) (k v : ℕ) (xs : List ℕ) → length xs ≤ k → Piled f xs → Piled (update f k v) xs
Piled-update f k v [] h p = tt
Piled-update f k v (x ∷ xs) h p = (ground arith, Piled-update f k v xs (omega arith) p.1)

suc_ℤ-top_of : (n : ℕ) → suc_ℤ (top_of n) ≡ pos n
suc_ℤ-top_of zero = refl
suc_ℤ-top_of (suc n) = refl

-- what a push does: it stores the item, or reports -1 and changes nothing
abbrev pub Pushed : Stack → ℕ → List ℕ → Stack × ℤ → Type 0
Pushed s i xs (s', ret) =
    ((length xs < max_reserves) × IsStack s' (i ∷ xs) × (ret ≡ pos 0))
    ⊎ ((length xs ≡ max_reserves) × (s' ≡ s) × (ret ≡ negsuc 0))

-- what a pop does: it takes the newest item, or reports -1 on an empty stack
abbrev pub Popped : Stack → List ℕ → Stack × ℤ → Type 0
Popped s [] (s', ret) = (s' ≡ s) × (ret ≡ negsuc 0)
Popped s (x ∷ xs) (s', ret) = IsStack s' xs × (ret ≡ pos x)

pop_at-Popped :
    (s : Stack) (t : ℤ) (xs : List ℕ)
    → IsStack s xs
    → t ≡ top_of (length xs)
    → Popped s xs (pop_at s t)
unfolding pop_at
pop_at-Popped s t [] h e = rw e (refl, refl)
pop_at-Popped s t (x ∷ []) h e =
    rw e (record { items = tt; top = refl; fits = omega arith }, ap pos h.items.0)
pop_at-Popped s t (x ∷ y ∷ ys) h e =
    rw e (record { items = h.items.1; top = refl; fits = omega (arith, h.fits) }, ap pos h.items.0)

module _ (s : Stack) (xs : List ℕ) (h : IsStack s xs) where
  push-room :
      (i : ℕ)
      → suc_ℤ s.top ≡ pos (length xs)
      → ltb (length xs) max_reserves ≡ true
      → push s i ≡ (record { stack = update s.stack (length xs) i; top = pos (length xs) }, pos 0)
  unfolding push
  push-room i at b = rw at (ground arith)

  push-full :
      (i : ℕ)
      → suc_ℤ s.top ≡ pos (length xs)
      → ltb (length xs) max_reserves ≡ false
      → push s i ≡ (s, negsuc 0)
  unfolding push
  push-full i at b = rw at (ground arith)

  push-Pushed : (i : ℕ) → Pushed s i xs (push s i)
  unfolding push
  push-Pushed i = elim (Bool-cases (ltb (length xs) max_reserves)) [
    | inl b ↦
        let at : suc_ℤ s.top ≡ pos (length xs) = ap suc_ℤ h.top ∙ suc_ℤ-top_of (length xs) in
        subst (Pushed s i xs) (sym (push-room i at b)) (
          inl (
            ground arith,
            record {
              items = (ground arith, Piled-update s.stack (length xs) i xs (omega arith) h.items);
              top = refl;
              fits = ground arith;
            },
            refl,
          ))
    | inr b ↦
        let at : suc_ℤ s.top ≡ pos (length xs) = ap suc_ℤ h.top ∙ suc_ℤ-top_of (length xs) in
        inr (
          ground (arith, h.fits),
          ap (λ p. p.0) (push-full i at b),
          ap (λ p. p.1) (push-full i at b),
        )
  ]

  -- Asking for a reserve to be looked at puts it on top of the stack of at most 100 items and
  -- returns 0, or returns -1 and changes nothing when the stack is full.
  pub push_to_reschedule-Pushed : (i : ℕ) → Pushed s i xs (push_to_reschedule s i)
  unfolding push_to_reschedule
  push_to_reschedule-Pushed = push-Pushed

  -- The scheduler task takes the newest item of the stack, or gets -1 from an empty one, which
  -- stays as it was.
  pub pop_to_reschedule-Popped : Popped s xs (pop_to_reschedule s)
  unfolding pop_to_reschedule
  pop_to_reschedule-Popped = pop_at-Popped s s.top xs h h.top

  pub push_to_activate-Pushed : (i : ℕ) → Pushed s i xs (push_to_activate s i)
  unfolding push_to_activate
  push_to_activate-Pushed = push-Pushed

  pub pop_to_activate-Popped : Popped s xs (pop_to_activate s)
  unfolding pop_to_activate
  pop_to_activate-Popped = pop_at-Popped s s.top xs h h.top

-- the result of a pop is -1 or an index in range
abbrev pub PoppedIn : Stack × ℤ → Type 0
PoppedIn (s, pos i) = ((j : ℕ) → s.stack j < max_reserves) × (i < max_reserves)
PoppedIn (s, negsuc n) = (j : ℕ) → s.stack j < max_reserves

pub pop_to_reschedule-PoppedIn :
    (s : Stack) → ((j : ℕ) → s.stack j < max_reserves) → PoppedIn (pop_to_reschedule s)
unfolding pop_to_reschedule pop_at
pop_to_reschedule-PoppedIn s h = popped s.top
  where
    popped : (top : ℤ) → PoppedIn (pop_at s top)
    popped (negsuc n) = h
    popped (pos zero) = (h, h 0)
    popped (pos (suc n)) = (h, h (suc n))

-- ===== src/Links/Insert.antt =====
-- Insertion behind the node at which the search stops.
use mixed_trust_zsrmv_public.Base.{
  ℕ, suc, ◌≡◌, refl, inl, inr, Bool, true, false, some, List, [], ◌∷◌, arith, Ptr, update, has,
  Distinct, length, Bool-cases, sym,
}
use mathlib.Core.Path.{subst}
use mixed_trust_zsrmv_public.Links.{link_after}
use mixed_trust_zsrmv_public.Links.Seg.{Seg, Seg-update}
use mixed_trust_zsrmv_public.Links.Walk.{stop_at, stop_at-ne}

-- `r` is put behind the node of `x ∷ ys` at which the search stops; `x` itself is left out
abbrev pub insert_after : (ℕ → ℕ → Bool) → ℕ → ℕ → List ℕ → List ℕ
insert_after go r x [] = r ∷ []
insert_after go r x (y ∷ ys) = elim (go x y) [
  | true ↦ y ∷ insert_after go r y ys
  | false ↦ r ∷ y ∷ ys
]

pub has-insert_after :
    (go : ℕ → ℕ → Bool) (r x : ℕ) (ys : List ℕ) (a : ℕ)
    → has a (insert_after go r x ys) ≡ has a (r ∷ ys)
has-insert_after go r x [] a = refl
has-insert_after go r x (y ∷ ys) a = elim (Bool-cases (go x y)) [
  | inl e ↦ ground (arith, has-insert_after go r y ys a)
  | inr e ↦ ground arith
]

pub Distinct-insert_after :
    (go : ℕ → ℕ → Bool) (r x : ℕ) (ys : List ℕ)
    → Distinct ys
    → has r ys ≡ false
    → Distinct (insert_after go r x ys)
Distinct-insert_after go r x [] d h = (refl, tt)
Distinct-insert_after go r x (y ∷ ys) d h = elim (Bool-cases (go x y)) [
  | inl e ↦
      rw (e, Distinct)
        (
          ground (arith, has-insert_after go r y ys y),
          Distinct-insert_after go r y ys d.1 (ground arith),
        )
  | inr e ↦ rw (e, Distinct) (h, d)
]

pub length-insert_after :
    (go : ℕ → ℕ → Bool) (r x : ℕ) (ys : List ℕ) → length (insert_after go r x ys) ≡ suc (length ys)
length-insert_after go r x [] = refl
length-insert_after go r x (y ∷ ys) = elim (Bool-cases (go x y)) [
  | inl e ↦ ground (arith, length-insert_after go r y ys)
  | inr e ↦ ground arith
]

-- the writes behind the stop `t` turn the segment into the list with `r` inserted
pub link_after_lem :
    (f : ℕ → Ptr) (go : ℕ → ℕ → Bool) (r x t : ℕ) (ys : List ℕ)
    → t ≡ stop_at go x ys
    → Seg f (f x) ys
    → Distinct (x ∷ ys)
    → has r (x ∷ ys) ≡ false
    → Seg (link_after f r t) (link_after f r t x) (insert_after go r x ys)
unfolding link_after
link_after_lem f go r x t [] e s d h = ground arith
link_after_lem f go r x t (y ∷ ys) e s d h = elim (Bool-cases (go x y)) [
  | inl b ↦
      let e' : t ≡ stop_at go y ys = ground arith in
      rw (b, Seg)
        (
          ground (arith, stop_at-ne go y ys x),
          link_after_lem f go r y t ys e' s.1 d.1 (ground arith),
        )
  | inr b ↦
      let e' : t ≡ x = ground arith in
      let at : update (update f r (f t)) t (some r) y ≡ f y = ground arith in
      let front = Seg-update f (f y) ys r (f t) s.1 (ground arith) in
      rw (b, Seg)
        (
          ground arith,
          (
            ground arith,
            subst (λ p. Seg (link_after f r t) p ys) (sym at)
                (Seg-update (update f r (f t)) (f y) ys t (some r) front (ground arith)),
          ),
        )
]

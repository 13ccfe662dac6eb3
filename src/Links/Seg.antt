-- ===== src/Links/Seg.antt =====
-- What a linked queue stands for: the list of the indices that its pointers lead through.
use mixed_trust_zsrmv_public.Base.{
  ℕ, ◌≡◌, refl, false, none, some, List, [], ◌∷◌, arith, Ptr, update, has,
}

-- from `p` the links of `f` lead through `xs` to NULL
abbrev pub Seg : (ℕ → Ptr) → Ptr → List ℕ → Type 0
Seg f p [] = p ≡ none
Seg f p (x ∷ xs) = (p ≡ some x) × Seg f (f x) xs

-- a write at an index outside the segment leaves it in place
pub Seg-update :
    (f : ℕ → Ptr) (p : Ptr) (xs : List ℕ) (a : ℕ) (v : Ptr)
    → Seg f p xs
    → has a xs ≡ false
    → Seg (update f a v) p xs
Seg-update f p [] a v s out = s
Seg-update f p (x ∷ xs) a v s out =
    let e : update f a v x ≡ f x = ground arith in
    (s.0, rw e (Seg-update f (f x) xs a v s.1 (ground arith)))

-- the links determine the list
pub Seg-unique : (f : ℕ → Ptr) (p : Ptr) (xs ys : List ℕ) → Seg f p xs → Seg f p ys → xs ≡ ys
Seg-unique f p [] [] s t = refl
Seg-unique f p [] (y ∷ ys) s t = cc
Seg-unique f p (x ∷ xs) [] s t = cc
Seg-unique f p (x ∷ xs) (y ∷ ys) s t =
    let e : x ≡ y = cc in let t' : Seg f (f x) ys = rw e t.1 in cc (Seg-unique f (f x) xs ys s.1 t')

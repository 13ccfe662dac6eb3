-- ===== src/Client/Handlers/Segment.antt =====
-- What a doubly linked list of records stands for: the list of addresses from the head around.
use mixed_trust_zsrmv_public.Base.{
  ℕ, ◌≡◌, refl, inl, inr, true, false, none, some, List, [], ◌∷◌, ◌++◌, arith, Ptr, update, has,
  Distinct, ◌==◌, Bool-cases,
}
use mixed_trust_zsrmv_public.Client.Handlers.{Handlers}

-- `b` is next to `a`, both ways
abbrev pub Linked : (ℕ → Ptr) → (ℕ → Ptr) → ℕ → ℕ → Type 0
Linked f g a b = (f a ≡ some b) × (g b ≡ some a)

-- from `a` through `xs` to `z`, both ways
abbrev pub Between : (ℕ → Ptr) → (ℕ → Ptr) → ℕ → List ℕ → ℕ → Type 0
Between f g a [] z = Linked f g a z
Between f g a (x ∷ xs) z = Linked f g a x × Between f g x xs z

abbrev pub IsRing : Handlers → List ℕ → Type 0
IsRing s [] = s.head ≡ none
IsRing s (x ∷ xs) = (s.head ≡ some x) × Between s.next s.prev x xs x × Distinct (x ∷ xs)

-- a write to the links forward of a node outside
pub Between-next :
    (f g : ℕ → Ptr) (a : ℕ) (xs : List ℕ) (z i : ℕ) (v : Ptr)
    → Between f g a xs z
    → has i (a ∷ xs) ≡ false
    → Between (update f i v) g a xs z
Between-next f g a [] z i v b out = (ground arith, b.1)
Between-next f g a (x ∷ xs) z i v b out =
    ((ground arith, b.0.1), Between-next f g x xs z i v b.1 (ground arith))

-- a write to the links backward of a node outside
pub Between-prev :
    (f g : ℕ → Ptr) (a : ℕ) (xs : List ℕ) (z i : ℕ) (v : Ptr)
    → Between f g a xs z
    → has i (z ∷ xs) ≡ false
    → Between f (update g i v) a xs z
Between-prev f g a [] z i v b out = (b.0, ground arith)
Between-prev f g a (x ∷ xs) z i v b out =
    ((b.0.0, ground arith), Between-prev f g x xs z i v b.1 (ground arith))

pub Between-snoc :
    (f g : ℕ → Ptr) (a : ℕ) (xs : List ℕ) (z w : ℕ)
    → Between f g a xs z
    → Linked f g z w
    → Between f g a (xs ++ z ∷ []) w
Between-snoc f g a [] z w b l = (b, l)
Between-snoc f g a (x ∷ xs) z w b l = (b.0, Between-snoc f g x xs z w b.1 l)

pub has-snoc : (a : ℕ) (xs : List ℕ) (z : ℕ) → has a (xs ++ z ∷ []) ≡ has a (z ∷ xs)
has-snoc a [] z = refl
has-snoc a (x ∷ xs) z = ground (arith, has-snoc a xs z)

pub Distinct-snoc : (xs : List ℕ) (z : ℕ) → Distinct xs → has z xs ≡ false → Distinct (xs ++ z ∷ [])
Distinct-snoc [] z d h = (refl, tt)
Distinct-snoc (x ∷ xs) z d h =
    (ground (arith, has-snoc x xs z), Distinct-snoc xs z d.1 (ground arith))

-- the node before a node on the way, and the node behind it
pub prev-has :
    (f g : ℕ → Ptr) (a : ℕ) (xs : List ℕ) (z r p : ℕ)
    → Between f g a xs z
    → has r xs ≡ true
    → g r ≡ some p
    → has p (a ∷ xs) ≡ true
prev-has f g a [] z r p b h e = cc
prev-has f g a (x ∷ xs) z r p b h e = elim (Bool-cases (x == r)) [
  | inl q ↦ ground arith
  | inr q ↦ ground (arith, prev-has f g x xs z r p b.1 (ground arith) e)
]

pub next-has :
    (f g : ℕ → Ptr) (a : ℕ) (xs : List ℕ) (z r n : ℕ)
    → Between f g a xs z
    → has r (a ∷ xs) ≡ true
    → f r ≡ some n
    → has n (z ∷ xs) ≡ true
next-has f g a [] z r n b h e = ground arith
next-has f g a (x ∷ xs) z r n b h e = elim (Bool-cases (a == r)) [
  | inl q ↦ ground arith
  | inr q ↦ ground (arith, next-has f g x xs z r n b.1 (ground arith) e)
]

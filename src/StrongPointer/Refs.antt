-- ===== src/StrongPointer/Refs.antt =====
-- How many handles refer to an object, and the counts that go with it.
use qf.Prelude.{
  ℕ, zero, suc, ◌+◌, ◌≤◌, ◌≡◌, arith, List, [], ◌∷◌, ◌++◌, Option, none, some, ◌==◌, if◌then◌else◌,
  length, get_elem?, set,
}
use qf.StrongPointer.{Object, Handle, holds, gone, World}

abbrev pub points : Handle → Object → ℕ
points gone o = 0
points (holds none) o = 0
points (holds (some p)) o = if p == o then 1 else 0

unfoldable pub refs : Object → List Handle → ℕ
refs o [] = 0
refs o (h ∷ hs) = points h o + refs o hs

pub points-le : (h : Handle) (o : Object) → points h o ≤ 1
points-le gone o = omega arith
points-le (holds none) o = omega arith
points-le (holds (some p)) o = ground arith

pub refs-append :
    (o : Object) (hs : List Handle) (h : Handle) → refs o (hs ++ h ∷ []) ≡ refs o hs + points h o
unfolding refs
refs-append o [] h = omega arith
refs-append o (k ∷ hs) h = omega (arith, refs-append o hs h)

pub refs-length : (o : Object) (hs : List Handle) → refs o hs ≤ length hs
unfolding refs
refs-length o [] = omega arith
refs-length o (h ∷ hs) = omega (arith, refs-length o hs, points-le h o)

pub refs-set :
    (o : Object) (hs : List Handle) (i : ℕ) (h k : Handle)
    → get_elem? hs i ≡ some h
    → refs o (set hs i k) + points h o ≡ refs o hs + points k o
unfolding refs
refs-set o [] i h k e = cc e
refs-set o (g ∷ hs) zero h k e = ground (arith, e)
refs-set o (g ∷ hs) (suc i) h k e = omega (arith, refs-set o hs i h k e)

pub refs_of_held :
    (o : Object) (hs : List Handle) (i : ℕ) (h : Handle)
    → get_elem? hs i ≡ some h
    → points h o ≤ refs o hs
unfolding refs
refs_of_held o [] i h e = cc e
refs_of_held o (g ∷ hs) zero h e = ground (arith, e)
refs_of_held o (g ∷ hs) (suc i) h e = omega (arith, refs_of_held o hs i h e)

-- The count of an object with `n` handles: no object without a handle.
abbrev pub exact : ℕ → Option ℕ
exact zero = none
exact (suc n) = some (suc n)

-- The counts of a world whose objects have `f` handles.
abbrev pub Exact : (Object → Option ℕ) → (Object → ℕ) → Type 0
Exact counts f = (q : Object) → counts q ≡ exact (f q)

-- Every object that exists is referred to, and its count is the number of its handles.
abbrev pub IsCounted : World → Type 0
IsCounted w = Exact w.counts (λ q. refs q w.handles)

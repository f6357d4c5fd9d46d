-- ===== src/StrongPointer/Compare.antt =====
-- The comparisons of `sp` of RS485/tl/native_client/jni/utils/StrongPointer.h, and what else reads or
-- sets its pointer. Addresses are numbers, and the null pointer is 0.
use qf.Prelude.{
  ℕ, ◌+◌, ◌≡◌, ◌↔◌, refl, ap, arith, Bool, true, not, Option, none, some, ◌==◌, ltb, ◌∷◌, [], ◌++◌,
}
use qf.StrongPointer.{◌>>=◌, Object, holds, World, pointer_of, put}

abbrev pub address : Option Object → ℕ
address none = 0
address (some o) = o + 1

-- `COMPARE`: against a pointer, or the pointer of a `sp` or a `wp`.
unfoldable pub sp_equals : Option Object → Option Object → Bool
sp_equals p q = address p == address q

unfoldable pub sp_differs : Option Object → Option Object → Bool
sp_differs p q = not (address p == address q)

unfoldable pub sp_greater : Option Object → Option Object → Bool
sp_greater p q = ltb (address q) (address p)

unfoldable pub sp_less : Option Object → Option Object → Bool
sp_less p q = ltb (address p) (address q)

unfoldable pub sp_at_most : Option Object → Option Object → Bool
sp_at_most p q = not (ltb (address q) (address p))

unfoldable pub sp_at_least : Option Object → Option Object → Bool
sp_at_least p q = not (ltb (address p) (address q))

-- `sp()`.
unfoldable pub sp_null : World → Option World
sp_null w = some (record w { handles = w.handles ++ holds none ∷ [] })

-- `operator*`: the object, or none for the null pointer.
unfoldable pub sp_dereference : ℕ → World → Option Object
unfolding pointer_of
sp_dereference i w = do p ← pointer_of i w; p

-- `set_pointer`: no count is changed.
unfoldable pub set_pointer : ℕ → Option Object → World → Option World
unfolding pointer_of
set_pointer i p w = do old ← pointer_of i w; some (put i (holds p) w)

-- `force_set`, which calls `forceIncStrong` of the new object and leaves the count of the old one.
unfoldable pub force_set : (Object → World → Option World) → ℕ → Object → World → Option World
unfolding set_pointer
force_set force_inc_strong i o w = do w ← force_inc_strong o w; set_pointer i (some o) w

-- Two pointers are equal exactly when they point to the same object or are both null.
pub sp_equals_iff : (p q : Option Object) → (sp_equals p q ≡ true) ↔ (p ≡ q)
unfolding sp_equals
sp_equals_iff none none = (λ e. refl, λ e. refl)
sp_equals_iff none (some b) = (λ e. absurd (ground (arith, e)), λ e. cc e)
sp_equals_iff (some a) none = (λ e. absurd (ground (arith, e)), λ e. cc e)
sp_equals_iff (some a) (some b) = (
  λ e. let same : a ≡ b = ground (arith, e) in ap some same,
  λ e. let same : a ≡ b = cc e in ground (arith, same),
)

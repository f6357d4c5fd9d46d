-- ===== src/WeakPointer/Compare.antt =====
-- The comparisons of `wp` of RS485/tl/native_client/jni/utils/RefBase.h. Addresses are numbers and
-- the null pointer is 0; a comparison that reads `m_refs` where it is not set is `none`.
use qf.Prelude.{ℕ, ◌+◌, Bool, false, not, Option, none, some, ◌==◌, ltb, if◌then◌else◌}
use qf.StrongPointer.Compare.{address}
use qf.StrongPointer.{◌>>=◌, Object}
use qf.WeakPointer.{RefsPointer, unset, null, at, Weak}

abbrev refs_address : RefsPointer → Option ℕ
refs_address unset = none
refs_address null = some 0
refs_address (at r) = some (r + 1)

-- A comparison of the two `m_refs`.
abbrev with_refs : (ℕ → ℕ → Bool) → Weak → Weak → Option Bool
with_refs test a b = do x ← refs_address a.m_refs; y ← refs_address b.m_refs; some (test x y)

abbrev pub gtb : ℕ → ℕ → Bool
gtb x y = ltb y x

-- `COMPARE_WEAK`: against a pointer, or the pointer of a `sp`.
unfoldable pub equals_pointer : Weak → Option Object → Bool
equals_pointer a p = address a.m_ptr == address p

unfoldable pub differs_pointer : Weak → Option Object → Bool
differs_pointer a p = not (address a.m_ptr == address p)

unfoldable pub greater_pointer : Weak → Option Object → Bool
greater_pointer a p = ltb (address p) (address a.m_ptr)

unfoldable pub less_pointer : Weak → Option Object → Bool
less_pointer a p = ltb (address a.m_ptr) (address p)

unfoldable pub at_most_pointer : Weak → Option Object → Bool
at_most_pointer a p = not (ltb (address p) (address a.m_ptr))

unfoldable pub at_least_pointer : Weak → Option Object → Bool
at_least_pointer a p = not (ltb (address a.m_ptr) (address p))

-- Against a `wp` of the same type.
unfoldable pub equals : Weak → Weak → Option Bool
equals a b =
    if address a.m_ptr == address b.m_ptr then with_refs (λ x y. x == y) a b else some false

unfoldable pub differs : Weak → Weak → Option Bool
differs a b = with_refs (λ x y. not (x == y)) a b

unfoldable pub greater : Weak → Weak → Option Bool
greater a b =
    if address a.m_ptr == address b.m_ptr
    then with_refs gtb a b
    else some (gtb (address a.m_ptr) (address b.m_ptr))

unfoldable pub less : Weak → Weak → Option Bool
less a b =
    if address a.m_ptr == address b.m_ptr
    then with_refs ltb a b
    else some (ltb (address a.m_ptr) (address b.m_ptr))

unfoldable pub at_most : Weak → Weak → Option Bool
unfolding greater
at_most a b = do x ← greater a b; some (not x)

unfoldable pub at_least : Weak → Weak → Option Bool
unfolding less
at_least a b = do x ← less a b; some (not x)

-- Against a `wp` of a derived type.
unfoldable pub equals_derived : Weak → Weak → Bool
equals_derived a b = address a.m_ptr == address b.m_ptr

unfoldable pub differs_derived : Weak → Weak → Bool
unfolding equals_derived
differs_derived a b = not (equals_derived a b)

abbrev pub greater_derived : Weak → Weak → Option Bool
greater_derived a b = greater a b

abbrev pub less_derived : Weak → Weak → Option Bool
less_derived a b = less a b

abbrev pub at_most_derived : Weak → Weak → Option Bool
at_most_derived a b = at_most a b

abbrev pub at_least_derived : Weak → Weak → Option Bool
at_least_derived a b = at_least a b

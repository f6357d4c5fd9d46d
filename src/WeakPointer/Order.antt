-- ===== src/WeakPointer/Order.antt =====
-- What the comparisons of `wp` of RS485/tl/native_client/jni/utils/RefBase.h agree on, and where
-- `==` and `!=` do not.
use qf.Prelude.{
  ℕ, suc, zero, ◌+◌, ◌<◌, ◌≡◌, ◌≢◌, ◌⊎◌, inl, inr, refl, arith, Bool, true, false, Option, none,
  some, ◌==◌, ltb, if◌then◌else◌, List, [], ◌∷◌, length, get_elem?, get_elem?-set_self,
  get_elem?-set_ne,
}
use qf.StrongPointer.{Object}
use qf.WeakPointer.{
  Refs, RefApi, RefsPointer, unset, null, at, Weak, weak, World, weak_at, put, dec_if, wp_clear,
}
use qf.WeakPointer.Runs.{weak_at-get}
use qf.StrongPointer.Compare.{address}
use qf.WeakPointer.Compare.{equals, differs, greater, less}

get_elem?-length :
    {A : Type 0} (xs : List A) (i : ℕ) (x : A) → get_elem? xs i ≡ some x → i < length xs
get_elem?-length [] i x e = cc e
get_elem?-length (y ∷ xs) zero x e = omega arith
get_elem?-length (y ∷ xs) (suc i) x e = omega (arith, get_elem?-length xs i x e)

-- `m_refs` is set.
abbrev pub IsGiven : RefsPointer → Type 0
IsGiven r = r ≢ unset

-- Exactly one of `<`, `==` and `>` is true.
abbrev pub Ordered : Weak → Weak → Type 0
Ordered a b =
    ((less a b ≡ some true) × (equals a b ≡ some false) × (greater a b ≡ some false))
    ⊎ ((less a b ≡ some false) × (equals a b ≡ some true) × (greater a b ≡ some false))
    ⊎ ((less a b ≡ some false) × (equals a b ≡ some false) × (greater a b ≡ some true))

three :
    (x y : ℕ)
    → ((ltb x y ≡ true) × ((x == y) ≡ false) × (ltb y x ≡ false))
      ⊎ ((ltb x y ≡ false) × ((x == y) ≡ true) × (ltb y x ≡ false))
      ⊎ ((ltb x y ≡ false) × ((x == y) ≡ false) × (ltb y x ≡ true))
three x y = ground arith

abbrev either : Bool → Bool → Bool → Option Bool
either same inner outer = if same then some inner else some outer

three_of_pair :
    (x y u v : ℕ)
    → ((either (x == y) (ltb u v) (ltb x y) ≡ some true)
        × (either (x == y) (u == v) false ≡ some false)
        × (either (x == y) (ltb v u) (ltb y x) ≡ some false))
      ⊎ ((either (x == y) (ltb u v) (ltb x y) ≡ some false)
          × (either (x == y) (u == v) false ≡ some true)
          × (either (x == y) (ltb v u) (ltb y x) ≡ some false))
      ⊎ ((either (x == y) (ltb u v) (ltb x y) ≡ some false)
          × (either (x == y) (u == v) false ≡ some false)
          × (either (x == y) (ltb v u) (ltb y x) ≡ some true))
three_of_pair x y u v = elim (three x y) [
  | inl (less, other, more) ↦ inl (rw (other, less), rw other, rw (other, more))
  | inr (inr (less, other, more)) ↦ inr (inr (rw (other, less), rw other, rw (other, more)))
  | inr (inl (less, same, more)) ↦ elim (three u v) [
    | inl (l, e, g) ↦ inl (rw (same, l), rw (same, e), rw (same, g))
    | inr (inl (l, e, g)) ↦ inr (inl (rw (same, l), rw (same, e), rw (same, g)))
    | inr (inr (l, e, g)) ↦ inr (inr (rw (same, l), rw (same, e), rw (same, g)))
  ]
]

-- Of two weak pointers of one type whose `m_refs` are set exactly one of `<`, `==` and `>` holds.
pub less-Ordered :
    (p q : Option Object) (r s : RefsPointer)
    → IsGiven r
    → IsGiven s
    → Ordered (weak p r) (weak q s)
unfolding less equals greater
less-Ordered p q unset s set_r set_s = absurd (set_r refl)
less-Ordered p q null unset set_r set_s = absurd (set_s refl)
less-Ordered p q (at x) unset set_r set_s = absurd (set_s refl)
less-Ordered p q null null set_r set_s = three_of_pair (address p) (address q) 0 0
less-Ordered p q null (at y) set_r set_s = three_of_pair (address p) (address q) 0 (y + 1)
less-Ordered p q (at x) null set_r set_s = three_of_pair (address p) (address q) (x + 1) 0
less-Ordered p q (at x) (at y) set_r set_s = three_of_pair (address p) (address q) (x + 1) (y + 1)

-- Two handles of one object: once one of them is cleared, `==` and `!=` between them are both
-- false, since `!=` compares only the `m_refs` that `clear` leaves as it is.
pub wp_clear-differs :
    {S : Type 0} (api : RefApi S) (w : World S) (t : S) (i j : ℕ) (o : Object) (r : Refs)
    → weak_at i w ≡ some (weak (some o) (at r))
    → weak_at j w ≡ some (weak (some o) (at r))
    → i ≢ j
    → api.dec_weak r w.state ≡ some t
    → (w' : World S) × (a : Weak) × (b : Weak) × (wp_clear api i w ≡ some w')
      × (weak_at i w' ≡ some a)
      × (weak_at j w' ≡ some b)
      × (equals a b ≡ some false)
      × (differs a b ≡ some false)
unfolding wp_clear weak_at dec_if equals differs
wp_clear-differs api w t i j o r here there apart returns =
    let a = weak none (at r) in
    let same : (r + 1 == r + 1) ≡ true = ground arith in
    let other : (0 == o + 1) ≡ false = ground arith in
    let in_range : i < length w.handles =
      get_elem?-length w.handles i (some (weak (some o) (at r))) (weak_at-get i w _ here) in
    (
      put i (some a) t w,
      a,
      weak (some o) (at r),
      rw here (rw returns refl),
      rw (get_elem?-set_self w.handles i (some a) in_range) refl,
      rw (get_elem?-set_ne w.handles i j (some a) apart) there,
      rw other,
      rw same,
    )

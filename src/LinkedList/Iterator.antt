-- ===== src/LinkedList/Iterator.antt =====
-- `_ListIterator` of RS485/tl/native_client/jni/utils/List.h. An iterator is the address of its
-- node, and an operator that moves it returns where it stands then.
use qf.Prelude.{
  ◌≡◌, arith, ==_iff, Bool-cases, inl, inr, Bool, true, List, [], ◌∷◌, ◌++◌, ◌==◌, not,
}
use qf.Bits.Table.{elem}
use qf.LinkedList.{Address, Memory, ok, Cmd, ◌>>=◌, pure, get_next, get_prev, get_ref}
use qf.LinkedList.Chain.{◌∈◌, elem-append, Chain, Ring}
use qf.LinkedList.Range.{get_next-ok}

unfoldable equals : Address → Address → Bool
equals it right = it == right

unfoldable differs : Address → Address → Bool
differs it right = not (it == right)

module _ {T : Type 0} where
  unfoldable deref : Address → Cmd T T
  deref it = get_ref it

  unfoldable pub pre_increment : Address → Cmd T Address
  pre_increment it = get_next it

  -- What the operator returns, and where the iterator stands then.
  unfoldable pub post_increment : Address → Cmd T (Address × Address)
  post_increment it = do after ← get_next it; pure (it, after)

  unfoldable pub pre_decrement : Address → Cmd T Address
  pre_decrement it = get_prev it

  unfoldable pub post_decrement : Address → Cmd T (Address × Address)
  post_decrement it = do before ← get_prev it; pure (it, before)

  -- In a chain `mpPrev` undoes `mpNext`.
  prev-next :
      (m : Memory T) (a : Address) (ps : List Address) (b q : Address)
      → Chain m a ps b
      → q ∈ a ∷ ps
      → (m.prev (m.next q) ≡ q) × (m.next q ∈ ps ++ b ∷ [])
  unfolding Chain elem
  prev-next m a [] b q (n, e) i =
      let same : q ≡ a = (==_iff q a).0 (ground (arith, i)) in
      let self : (b == b) ≡ true = ground arith in (rw (same, n) e, rw (same, n, self))
  prev-next m a (p ∷ ps) b q (n, e, rest) i = elim (Bool-cases (q == a)) [
    | inl here ↦
        let same : q ≡ a = (==_iff q a).0 here in
        let self : (p == p) ≡ true = ground arith in (rw (same, n) e, rw (same, n, self))
    | inr there ↦
        let (back, next) = prev-next m p ps b q rest (ground (arith, i)) in (back, ground arith)
  ]

  -- Each iterator of a list, the one at its end included, moves forward and back to where it was,
  -- and no memory changes.
  pub pre_decrement-pre_increment :
      (m : Memory T) (middle : Address) (ps : List Address) (it : Address)
      → Ring m middle ps
      → it ∈ middle ∷ ps
      → (pre_increment it >>= pre_decrement) m ≡ ok it m
  unfolding pre_increment pre_decrement get_prev elem
  pre_decrement-pre_increment m middle ps it r i =
      let (back, next) = prev-next m middle ps middle it r.linked i in
      let alive : m.live (m.next it) ≡ true =
        r.alive (m.next it) (ground (arith, elem-append (m.next it) ps (middle ∷ []), next)) in
      rw (get_next-ok middle m it (r.alive it i)) (rw alive (rw back))

-- ===== src/LinkedList/Walk.antt =====
-- The loops of RS485/tl/native_client/jni/utils/List.h that walk or clear a list.
use qf.Prelude.{
  ℕ, zero, suc, ◌+◌, ◌%◌, ◌^◌, ◌<◌, ◌≡◌, refl, ap, arith, ==_iff, Bool, true, false, List, [], ◌∷◌,
  ◌==◌, if◌then◌else◌, length,
}
use qf.Bits.Table.{elem}
use qf.LinkedList.{
  Address, Memory, update, Run, ok, ◌>>=◌, ◌>>◌, pure, get_next, set_next, set_prev, delete_node,
  distance, size, clear_loop, clear, destroy,
}
use qf.LinkedList.Chain.{◌∈◌, ◌∉◌, Distinct, first_of, Chain, Chain-uncons, next-first_of, Ring}
use qf.LinkedList.Nodes.{==-mem}

module _ {T : Type 0} (m : Memory T) (middle : Address) where
  distance-length :
      (fuel : ℕ) (a : Address) (ps : List Address)
      → Chain m a ps middle
      → middle ∉ ps
      → ((q : Address) → q ∈ ps → m.live q ≡ true)
      → length ps < fuel
      → distance fuel (first_of ps middle) middle m ≡ ok (length ps) m
  unfolding distance get_next elem
  distance-length zero a ps c out alive enough = absurd (omega arith)
  distance-length (suc fuel) a [] c out alive enough =
      let same : (middle == middle) ≡ true = ground arith in rw same
  distance-length (suc fuel) a (p ∷ ps) c out alive enough =
      let (to, back, rest) = Chain-uncons m a p ps middle c in
      let next : m.next p ≡ first_of ps middle = next-first_of m p ps middle rest in
      let other : (p == middle) ≡ false = ground arith in
      let ih =
        distance-length fuel p ps rest (ground arith) (λ q i. alive q (ground (arith, i)))
          (omega arith) in
      let succ : length ps + 1 ≡ suc (length ps) = omega arith in
      rw (other, alive p (ground arith), next) (rw ih (ap (λ n. ok n m) succ))

  -- With more fuel than nodes `size` returns the number of nodes, as a 32-bit word, and changes
  -- nothing.
  pub size-length :
      (fuel : ℕ) (ps : List Address)
      → Ring m middle ps
      → length ps < fuel
      → size fuel middle m ≡ ok (length ps % 2 ^ 32) m
  unfolding size qf.LinkedList.begin get_next elem
  size-length fuel ps r enough =
      let next : m.next middle ≡ first_of ps middle = next-first_of m middle ps middle r.linked in
      rw (r.alive middle (ground arith), next)
        (rw (
          distance-length fuel middle ps r.linked r.distinct.0
            (λ q i. r.alive q (ground (arith, i))) enough))

-- The nodes `ps` are no longer live.
abbrev pub without : List Address → (Address → Bool) → Address → Bool
without [] live = live
without (p ∷ ps) live = without ps (update p false live)

pub without_lem :
    (ps : List Address) (live : Address → Bool) (q : Address)
    → without ps live q ≡ (if elem q ps then false else live q)
unfolding elem
without_lem [] live q = refl
without_lem (p ∷ ps) live q = rw (without_lem ps (update p false live) q) (ground arith)

module _ {T : Type 0} (middle : Address) where
  clear_loop-without :
      (m : Memory T) (fuel : ℕ) (a : Address) (ps : List Address)
      → Chain m a ps middle
      → middle ∉ ps
      → Distinct ps
      → ((q : Address) → q ∈ ps → m.live q ≡ true)
      → length ps < fuel
      → clear_loop fuel middle (first_of ps middle) m
        ≡ ok tt (record m { live = without ps m.live })
  unfolding clear_loop get_next delete_node elem Chain
  clear_loop-without m zero a ps c out distinct alive enough = absurd (omega arith)
  clear_loop-without m (suc fuel) a [] c out distinct alive enough =
      let same : (middle == middle) ≡ true = ground arith in rw same
  clear_loop-without m (suc fuel) a (p ∷ ps) c out distinct alive enough =
      let (to, back, rest) = Chain-uncons m a p ps middle c in
      let next : m.next p ≡ first_of ps middle = next-first_of m p ps middle rest in
      let other : (p == middle) ≡ false = ground arith in
      let here = alive p (ground arith) in
      rw (other, here, next)
        (rw here (
          clear_loop-without (record m { live = update p false m.live }) fuel p ps rest
            (ground arith) distinct.1
            (λ q i. rw (==-mem q p ps i distinct.0) (alive q (ground (arith, i)))) (omega arith)))

  cleared : Memory T → List Address → Memory T
  cleared m ps = record m {
    live = without ps m.live;
    prev = update middle middle m.prev;
    next = update middle middle m.next;
  }

  -- With more fuel than nodes `clear` ends, on an empty list; it deletes each node once, and the
  -- rest of memory stays live.
  pub clear-Ring :
      (m : Memory T) (fuel : ℕ) (ps : List Address)
      → Ring m middle ps
      → length ps < fuel
      → (k : Memory T) × (clear fuel middle m ≡ ok tt k)
        × Ring k middle []
        × ((q : Address) → k.live q ≡ (if elem q ps then false else m.live q))
  unfolding clear cleared set_prev set_next get_next elem Chain
  clear-Ring m fuel ps r enough =
      let next : m.next middle ≡ first_of ps middle = next-first_of m middle ps middle r.linked in
      let at = r.alive middle (ground arith) in
      let after : without ps m.live middle ≡ true =
        rw (without_lem ps m.live middle, r.distinct.0) at in
      let same : (middle == middle) ≡ true = ground arith in
      (
        cleared m ps,
        rw (at, next)
            (rw
              (clear_loop-without m fuel middle ps r.linked r.distinct.0 r.distinct.1
                (λ q i. r.alive q (ground (arith, i))) enough)
              (rw after (rw after))),
        record {
          linked = (rw same, rw same);
          distinct = (refl, tt);
          alive = λ q i. let e : q ≡ middle = (==_iff q middle).0 (ground (arith, i)) in rw e after;
        },
        without_lem ps m.live,
      )

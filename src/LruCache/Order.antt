-- ===== src/LruCache/Order.antt =====
-- A cache of RS485/tl/native_client/jni/utils/LruCache.h as the sequence of its pairs, the one whose
-- use is longest ago first.
use mathlib.Core.List.{append-nil}
use qf.Prelude.{
  ◌≡◌, refl, sym, ◌∙◌, arith, List, [], ◌∷◌, ◌++◌, Option, none, some, false, ◌==◌, length,
}
use qf.Bits.Table.{elem}
use qf.LinkedList.Chain.{◌∉◌, Distinct, elem-append}
use qf.LinkedList.Nodes.{
  ==-mem, Distinct-left, Distinct-right, Distinct-insert, Distinct-erase, apart_of_distinct,
  apart_of_distinct',
}
use qf.LruCache.{Address, Entries, Cache, ok, attach_to_cache, detach_from_cache}
use qf.LruCache.Chain.{
  head_of, last_of, entry_of, Chain, Chain-frame, Chain-append, Chain-split, put_child, put_parent,
  Misses, last-Misses, head-Misses, put_child-Misses, put_parent-Misses, Chain-put_last,
  Chain-put_head,
}
use qf.LruCache.Links.{IsAlive, unless, relinked, detach_from_cache-ok, attach_to_cache-ok}

last_of-append :
    (b : Option Address) (xs ys : List Address) → last_of b (xs ++ ys) ≡ last_of (last_of b xs) ys
last_of-append b [] ys = refl
last_of-append b (x ∷ xs) ys = last_of-append (some x) xs ys

last_of-some : (q : Address) (ps : List Address) → (r : Address) × (last_of (some q) ps ≡ some r)
last_of-some q [] = (q, refl)
last_of-some q (p ∷ ps) = last_of-some p ps

-- The two ends after an entry is taken out.
unless-head :
    (xs : List Address) (p : Address) (ys : List Address)
    → unless (last_of none xs) (head_of ys none) (head_of (xs ++ p ∷ ys) none)
      ≡ head_of (xs ++ ys) none
unless-head [] p ys = refl
unless-head (x ∷ xs) p ys = let (r, e) = last_of-some x xs in rw e refl

unless-last :
    (xs : List Address) (p : Address) (ys : List Address)
    → unless (head_of ys none) (last_of none xs) (last_of none (xs ++ p ∷ ys))
      ≡ last_of none (xs ++ ys)
unless-last xs p [] = rw (append-nil xs) refl
unless-last xs p (y ∷ ys) =
    last_of-append none xs (p ∷ y ∷ ys) ∙ sym (last_of-append none xs (y ∷ ys))

unless-first :
    (ps : List Address) (p : Address)
    → unless (last_of none ps) (some p) (head_of ps none) ≡ head_of (ps ++ p ∷ []) none
unless-first [] p = refl
unless-first (q ∷ ps) p = let (r, e) = last_of-some q ps in rw e refl

module _ {K V : Type 0} where
  last_of-IsAlive :
      (m : Entries K V) (before : Option Address) (p : Address) (ps : List Address)
      (l : List (K × V)) (next : Option Address)
      → Chain m before (p ∷ ps) l next
      → IsAlive (last_of (some p) ps) m
  last_of-IsAlive m before p ps [] next c = absurd c
  last_of-IsAlive m before p [] (x ∷ l) next (e, c) = (_, e)
  last_of-IsAlive m before p (q ∷ ps) (x ∷ l) next (e, c) = last_of-IsAlive m (some p) q ps l next c

  pub last-IsAlive :
      (m : Entries K V) (ps : List Address) (l : List (K × V)) (next : Option Address)
      → Chain m none ps l next
      → IsAlive (last_of none ps) m
  last-IsAlive m [] l next c = tt
  last-IsAlive m (p ∷ ps) l next c = last_of-IsAlive m none p ps l next c

  pub head-IsAlive :
      (m : Entries K V) (before : Option Address) (ps : List Address) (l : List (K × V))
      → Chain m before ps l none
      → IsAlive (head_of ps none) m
  head-IsAlive m before [] l c = tt
  head-IsAlive m before (p ∷ ps) [] c = absurd c
  head-IsAlive m before (p ∷ ps) (x ∷ l) (e, c) = (_, e)

-- The entries at `nodes`, in order, hold the pairs of `l`.
pub record Ordered {S K V : Type 0} (c : Cache S K V) (nodes : List Address) (l : List (K × V))
    : Type 0 where
  pub chain : Chain c.entries none nodes l none
  pub distinct : Distinct nodes
  pub first : c.oldest ≡ head_of nodes none
  pub last : c.youngest ≡ last_of none nodes

module _ {S K V : Type 0} (c : Cache S K V) where
  -- `detachFromCache` takes an entry out of the sequence, wherever it stands: the others stay linked
  -- both ways in their order, the links of the entry are cleared, and no entry outside of the
  -- sequence changes.
  pub detach-Ordered :
      (xs : List Address) (p : Address) (ys : List Address) (l : List (K × V)) (x : K × V)
      (r : List (K × V))
      → length xs ≡ length l
      → Ordered c (xs ++ p ∷ ys) (l ++ x ∷ r)
      → (n : Entries K V) × (o : Option Address) × (y : Option Address) × (detach_from_cache p c
          ≡ ok tt (relinked c n o y))
        × Ordered (relinked c n o y) (xs ++ ys) (l ++ r)
        × (n p ≡ some (entry_of x.0 x.1 none none))
        × ((q : Address) → q ∉ xs ++ p ∷ ys → n q ≡ c.entries q)
  unfolding elem
  detach-Ordered xs p ys l x r same ordered =
      let m = c.entries in
      let d = ordered.distinct in
      let (left, here, right) = Chain-split m none xs p ys l x r none same ordered.chain in
      let before = last_of none xs in
      let next = head_of ys none in
      let right_distinct = Distinct-right xs (p ∷ ys) d in
      let left_distinct = Distinct-left xs (p ∷ ys) d in
      let out_left : p ∉ xs = apart_of_distinct' p xs (p ∷ ys) d (ground arith) in
      let (n, runs, at, others) =
        detach_from_cache-ok p x.0 x.1 before next c here (last-IsAlive m xs l (some p) left)
          (head-IsAlive m (some p) ys r right) (last-Misses xs p out_left)
          (head-Misses ys p right_distinct.0) in
      let m1 = put_child before next m in
      let chain_left : Chain n none xs l next =
        Chain-frame m1 n none xs l next
          (λ q i.
            others q (==-mem q p xs i out_left)
            ∙ put_parent-Misses m1 next before q
                (head-Misses ys q (ground (arith, apart_of_distinct q xs (p ∷ ys) d i))))
          (Chain-put_last m xs l (some p) next left_distinct left) in
      let right1 : Chain m1 (some p) ys r none =
        Chain-frame m m1 (some p) ys r none
          (λ q i.
            put_child-Misses m before next q
              (last-Misses xs q (apart_of_distinct' q xs (p ∷ ys) d (ground (arith, i)))))
          right in
      let chain_right : Chain n before ys r none =
        Chain-frame (put_parent next before m1) n before ys r none
          (λ q i. others q (==-mem q p ys i right_distinct.0))
          (Chain-put_head m1 (some p) before ys r right_distinct.1 right1) in
      (
        n,
        unless before next c.oldest,
        unless next before c.youngest,
        runs,
        record {
          chain = Chain-append n none xs ys l r none chain_left chain_right;
          distinct = Distinct-erase p xs ys d;
          first = rw ordered.first (unless-head xs p ys);
          last = rw ordered.last (unless-last xs p ys);
        },
        at,
        λ q out.
            let apart : (q == p) ≡ false = ground (arith, elem-append q xs (p ∷ ys)) in
            others q apart
            ∙ put_parent-Misses m1 next before q
                (head-Misses ys q (ground (arith, elem-append q xs (p ∷ ys))))
            ∙ put_child-Misses m before next q
                (last-Misses xs q (ground (arith, elem-append q xs (p ∷ ys)))),
      )

  -- `attachToCache` puts an entry without links at the end of the sequence.
  pub attach-Ordered :
      (nodes : List Address) (l : List (K × V)) (p : Address) (k : K) (v : V)
      → Ordered c nodes l
      → p ∉ nodes
      → c.entries p ≡ some (entry_of k v none none)
      → (n : Entries K V) × (o : Option Address) × (y : Option Address) × (attach_to_cache p c
          ≡ ok tt (relinked c n o y))
        × Ordered (relinked c n o y) (nodes ++ p ∷ []) (l ++ (k, v) ∷ [])
        × (n p ≡ some (entry_of k v c.youngest none))
        × ((q : Address) → q ∉ nodes ++ p ∷ [] → n q ≡ c.entries q)
  unfolding elem
  attach-Ordered nodes l p k v ordered out at =
      let m = c.entries in
      let alive : IsAlive c.youngest m =
        rw ordered.last (last-IsAlive m nodes l none ordered.chain) in
      let miss : Misses c.youngest p = rw ordered.last (last-Misses nodes p out) in
      let (n, runs, here, others) = attach_to_cache-ok p k v c at alive miss in
      let start : Chain n none nodes l (some p) =
        Chain-frame (put_child (last_of none nodes) (some p) m) n none nodes l (some p)
          (λ q i. others q (==-mem q p nodes i out) ∙ rw ordered.last refl)
          (Chain-put_last m nodes l none (some p) ordered.distinct ordered.chain) in
      (
        n,
        unless c.youngest (some p) c.oldest,
        some p,
        runs,
        record {
          chain =
              Chain-append n none nodes (p ∷ []) l ((k, v) ∷ []) none start
                (here ∙ rw ordered.last refl, tt);
          distinct =
              Distinct-insert p nodes [] (rw (append-nil nodes) ordered.distinct)
                (rw (append-nil nodes) out);
          first = rw (ordered.last, ordered.first) (unless-first nodes p);
          last = sym (last_of-append none nodes (p ∷ []));
        },
        here,
        λ q off.
            let apart : (q == p) ≡ false = ground (arith, elem-append q nodes (p ∷ [])) in
            let off' : q ∉ nodes = ground (arith, elem-append q nodes (p ∷ [])) in
            others q apart
            ∙ put_child-Misses m c.youngest (some p) q (rw ordered.last (last-Misses nodes q off')),
      )

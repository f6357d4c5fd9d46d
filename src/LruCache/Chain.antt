-- ===== src/LruCache/Chain.antt =====
-- The entries of RS485/tl/native_client/jni/utils/LruCache.h in the order in which they were used.
use qf.Prelude.{
  ◌≡◌, refl, ◌∙◌, arith, List, [], ◌∷◌, ◌++◌, Option, none, some, true, false, ◌==◌, length,
}
use qf.Bits.Table.{elem}
use qf.LinkedList.Chain.{◌∈◌, ◌∉◌, Distinct}
use qf.LinkedList.Nodes.{==-mem}
use qf.LruCache.{Address, Entry, Entries, map_option, write, with_parent, with_child}

-- The first of `ps`, or `q`; the last of `ps`, or `q`.
abbrev pub head_of : List Address → Option Address → Option Address
head_of [] q = q
head_of (p ∷ ps) q = some p

abbrev pub last_of : Option Address → List Address → Option Address
last_of q [] = q
last_of q (p ∷ ps) = last_of (some p) ps

head_of-append :
    (xs ys : List Address) (next : Option Address)
    → head_of (xs ++ ys) next ≡ head_of xs (head_of ys next)
head_of-append [] ys next = refl
head_of-append (x ∷ xs) ys next = refl

-- `q` is not the entry `o`.
abbrev pub Misses : Option Address → Address → Type 0
Misses none q = Unit {0}
Misses (some p) q = (q == p) ≡ false

pub last_of-Misses :
    (q : Address) (ps : List Address) (p : Address) → p ∉ q ∷ ps → Misses (last_of (some q) ps) p
unfolding elem
last_of-Misses q [] p out = ground arith
last_of-Misses q (r ∷ ps) p out = last_of-Misses r ps p (ground arith)

pub last-Misses : (ps : List Address) (p : Address) → p ∉ ps → Misses (last_of none ps) p
last-Misses [] p out = tt
last-Misses (q ∷ ps) p out = last_of-Misses q ps p out

pub head-Misses : (ps : List Address) (p : Address) → p ∉ ps → Misses (head_of ps none) p
unfolding elem
head-Misses [] p out = tt
head-Misses (q ∷ ps) p out = ground arith

module _ {K V : Type 0} where
  abbrev pub entry_of : K → V → Option Address → Option Address → Entry K V
  entry_of k v before next = record { key = k; value = v; parent = before; child = next }

  -- From `before` to `next` the entries at `ps` hold the pairs of `l`, linked both ways.
  abbrev pub Chain :
      Entries K V → Option Address → List Address → List (K × V) → Option Address → Type 0
  Chain m before [] [] next = Unit {0}
  Chain m before [] (x ∷ l) next = ⊥
  Chain m before (p ∷ ps) [] next = ⊥
  Chain m before (p ∷ ps) (x ∷ l) next =
      (m p ≡ some (entry_of x.0 x.1 before (head_of ps next))) × Chain m (some p) ps l next

  pub Chain-frame :
      (m n : Entries K V) (before : Option Address) (ps : List Address) (l : List (K × V))
      (next : Option Address)
      → ((q : Address) → q ∈ ps → n q ≡ m q)
      → Chain m before ps l next
      → Chain n before ps l next
  unfolding elem
  Chain-frame m n before [] [] next same c = tt
  Chain-frame m n before [] (x ∷ l) next same c = c
  Chain-frame m n before (p ∷ ps) [] next same c = c
  Chain-frame m n before (p ∷ ps) (x ∷ l) next same (e, c) = (
    same p (ground arith) ∙ e,
    Chain-frame m n (some p) ps l next (λ q i. same q (ground (arith, i))) c,
  )

  pub Chain-append :
      (m : Entries K V) (before : Option Address) (xs ys : List Address) (l r : List (K × V))
      (next : Option Address)
      → Chain m before xs l (head_of ys next)
      → Chain m (last_of before xs) ys r next
      → Chain m before (xs ++ ys) (l ++ r) next
  Chain-append m before [] ys [] r next c d = d
  Chain-append m before [] ys (x ∷ l) r next c d = absurd c
  Chain-append m before (p ∷ ps) ys [] r next c d = absurd c
  Chain-append m before (p ∷ ps) ys (x ∷ l) r next (e, c) d =
      (rw (head_of-append ps ys next) e, Chain-append m (some p) ps ys l r next c d)

  -- The entry at the end of a chain, or at its start, is linked to another one.
  abbrev pub put_child : Option Address → Option Address → Entries K V → Entries K V
  put_child none next m = m
  put_child (some p) next m = write p (map_option (with_child next) (m p)) m

  abbrev pub put_parent : Option Address → Option Address → Entries K V → Entries K V
  put_parent none before m = m
  put_parent (some p) before m = write p (map_option (with_parent before) (m p)) m

  pub put_child-Misses :
      (m : Entries K V) (o after : Option Address) (q : Address)
      → Misses o q
      → put_child o after m q ≡ m q
  put_child-Misses m none after q miss = refl
  put_child-Misses m (some p) after q miss = rw miss

  pub put_parent-Misses :
      (m : Entries K V) (o after : Option Address) (q : Address)
      → Misses o q
      → put_parent o after m q ≡ m q
  put_parent-Misses m none after q miss = refl
  put_parent-Misses m (some p) after q miss = rw miss

  Chain-put_child :
      (m : Entries K V) (before : Option Address) (p : Address) (ps : List Address)
      (l : List (K × V)) (next after : Option Address)
      → Distinct (p ∷ ps)
      → Chain m before (p ∷ ps) l next
      → Chain (put_child (last_of (some p) ps) after m) before (p ∷ ps) l after
  unfolding elem
  Chain-put_child m before p ps [] next after d c = c
  Chain-put_child m before p [] (x ∷ []) next after d (e, c) =
      let same : (p == p) ≡ true = ground arith in (rw (same, e), tt)
  Chain-put_child m before p [] (x ∷ y ∷ l) next after d (e, c) = absurd c
  Chain-put_child m before p (q ∷ ps) (x ∷ l) next after (out, d) (e, c) = (
    put_child-Misses m (last_of (some q) ps) after p (last_of-Misses q ps p out) ∙ e,
    Chain-put_child m (some p) q ps l next after d c,
  )

  -- A chain that starts the list ends elsewhere.
  pub Chain-put_last :
      (m : Entries K V) (ps : List Address) (l : List (K × V)) (next after : Option Address)
      → Distinct ps
      → Chain m none ps l next
      → Chain (put_child (last_of none ps) after m) none ps l after
  Chain-put_last m [] [] next after d c = tt
  Chain-put_last m [] (x ∷ l) next after d c = c
  Chain-put_last m (p ∷ ps) l next after d c = Chain-put_child m none p ps l next after d c

  -- A chain that ends the list starts elsewhere.
  pub Chain-put_head :
      (m : Entries K V) (before after : Option Address) (ps : List Address) (l : List (K × V))
      → Distinct ps
      → Chain m before ps l none
      → Chain (put_parent (head_of ps none) after m) after ps l none
  unfolding elem
  Chain-put_head m before after [] [] d c = tt
  Chain-put_head m before after [] (x ∷ l) d c = c
  Chain-put_head m before after (p ∷ ps) [] d c = c
  Chain-put_head m before after (p ∷ ps) (x ∷ l) (out, d) (e, c) =
      let same : (p == p) ≡ true = ground arith in
      (
        rw (same, e),
        Chain-frame m (put_parent (some p) after m) (some p) ps l none
            (λ q i. put_parent-Misses m (some p) after q (==-mem q p ps i out)) c,
      )

  pub Chain-split :
      (m : Entries K V) (before : Option Address) (xs : List Address) (p : Address)
      (ys : List Address) (l : List (K × V)) (x : K × V) (r : List (K × V)) (next : Option Address)
      → length xs ≡ length l
      → Chain m before (xs ++ p ∷ ys) (l ++ x ∷ r) next
      → Chain m before xs l (some p)
        × (m p ≡ some (entry_of x.0 x.1 (last_of before xs) (head_of ys next)))
        × Chain m (some p) ys r next
  Chain-split m before [] p ys [] x r next same (e, c) = (tt, e, c)
  Chain-split m before [] p ys (y ∷ l) x r next same c = absurd (omega (arith, same))
  Chain-split m before (q ∷ xs) p ys [] x r next same c = absurd (omega (arith, same))
  Chain-split m before (q ∷ xs) p ys (y ∷ l) x r next same (e, c) =
      let (left, here, right) = Chain-split m (some q) xs p ys l x r next (omega (arith, same)) c in
      ((rw (head_of-append xs (p ∷ ys) next) at e, left), here, right)

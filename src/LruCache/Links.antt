-- ===== src/LruCache/Links.antt =====
-- What `attachToCache` and `detachFromCache` of RS485/tl/native_client/jni/utils/LruCache.h do to the
-- links of the entries.
use qf.Prelude.{
  ◌≡◌, refl, sym, ap, ◌∙◌, arith, Option, none, some, true, false, ◌==◌, ==_iff, Bool-cases, inl,
  inr,
}
use qf.LruCache.{
  Address, Entry, Entries, Cache, ok, write, with_parent, with_child, load, set_parent, set_child,
  attach_behind, attach_to_cache, link_child, link_parent, detach_from_cache,
}
use qf.LruCache.Chain.{entry_of, put_child, put_parent, Misses, put_child-Misses, put_parent-Misses}

-- The entry `o` exists, if there is one.
abbrev pub IsAlive : {K V : Type 0} → Option Address → Entries K V → Type 0
IsAlive none m = Unit {0}
IsAlive {K} {V} (some p) m = (e : Entry K V) × (m p ≡ some e)

-- What stands for `q` when there is an entry `o`, and otherwise is `p`.
abbrev pub unless : Option Address → Option Address → Option Address → Option Address
unless none p q = p
unless (some o) p q = q

module _ {K V : Type 0} where
  put_child-IsAlive :
      (o next q : Option Address) (m : Entries K V) → IsAlive q m → IsAlive q (put_child o next m)
  put_child-IsAlive none next q m alive = alive
  put_child-IsAlive (some p) next none m alive = tt
  put_child-IsAlive (some p) next (some q) m (e, at) = elim (Bool-cases (q == p)) [
    | inl same ↦
        let here : m p ≡ some e = ap m (sym ((==_iff q p).0 same)) ∙ at in
        (with_child next e, rw same (rw here refl))
    | inr other ↦ (e, rw other at)
  ]

  -- The links around `p` when it is taken out.
  abbrev pub bypassed : Option Address → Option Address → Entries K V → Entries K V
  bypassed before next m = put_parent next before (put_child before next m)

module _ {S K V : Type 0} where
  abbrev pub relinked : Cache S K V → Entries K V → Option Address → Option Address → Cache S K V
  relinked c m o y = record c { entries = m; oldest = o; youngest = y }

  link_child-put_child :
      (o next : Option Address) (c : Cache S K V)
      → IsAlive o c.entries
      → link_child o next c
        ≡ ok tt (relinked c (put_child o next c.entries) (unless o next c.oldest) c.youngest)
  unfolding set_child load
  link_child-put_child none next c alive = refl
  link_child-put_child (some p) next c (e, at) = rw at refl

  link_parent-put_parent :
      (o before : Option Address) (c : Cache S K V)
      → IsAlive o c.entries
      → link_parent o before c
        ≡ ok tt (relinked c (put_parent o before c.entries) c.oldest (unless o before c.youngest))
  unfolding set_parent load
  link_parent-put_parent none before c alive = refl
  link_parent-put_parent (some p) before c (e, at) = rw at refl

  set_parent-write :
      (p : Address) (q : Option Address) (c : Cache S K V) (e : Entry K V)
      → c.entries p ≡ some e
      → set_parent p q c ≡ ok tt (record c { entries = write p (some (with_parent q e)) c.entries })
  unfolding set_parent load
  set_parent-write p q c e at = rw at refl

  set_child-write :
      (p : Address) (q : Option Address) (c : Cache S K V) (e : Entry K V)
      → c.entries p ≡ some e
      → set_child p q c ≡ ok tt (record c { entries = write p (some (with_child q e)) c.entries })
  unfolding set_child load
  set_child-write p q c e at = rw at refl

  load-ok :
      (p : Address) (c : Cache S K V) (e : Entry K V) → c.entries p ≡ some e → load p c ≡ ok e c
  unfolding load
  load-ok p c e at = rw at refl

  pub detach_from_cache-ok :
      (p : Address) (k : K) (v : V) (before next : Option Address) (c : Cache S K V)
      → c.entries p ≡ some (entry_of k v before next)
      → IsAlive before c.entries
      → IsAlive next c.entries
      → Misses before p
      → Misses next p
      → (n : Entries K V) × (detach_from_cache p c
          ≡ ok tt (relinked c n (unless before next c.oldest) (unless next before c.youngest)))
        × (n p ≡ some (entry_of k v none none))
        × ((q : Address) → (q == p) ≡ false → n q ≡ bypassed before next c.entries q)
  unfolding detach_from_cache
  detach_from_cache-ok p k v before next c at alive_before alive_next miss_before miss_next =
      let e = entry_of k v before next in
      let m1 = put_child before next c.entries in
      let c1 = relinked c m1 (unless before next c.oldest) c.youngest in
      let at1 : m1 p ≡ some e = put_child-Misses c.entries before next p miss_before ∙ at in
      let m2 = put_parent next before m1 in
      let c2 = relinked c1 m2 c1.oldest (unless next before c.youngest) in
      let at2 : m2 p ≡ some e = put_parent-Misses m1 next before p miss_next ∙ at1 in
      let same : (p == p) ≡ true = ground arith in
      let m3 = write p (some (with_parent none e)) m2 in
      let c3 = record c2 { entries = m3 } in
      let at3 : m3 p ≡ some (with_parent none e) = rw same refl in
      (
        write p (some (entry_of k v none none)) m3,
        rw (load-ok p c e at) (
            rw (link_child-put_child before next c alive_before) (
              rw (load-ok p c1 e at1) (
                rw
                  (link_parent-put_parent next before c1
                    (put_child-IsAlive before next next c.entries alive_next))
                  (rw (set_parent-write p none c2 e at2)
                    (set_child-write p none c3 (with_parent none e) at3))))),
        rw same refl,
        λ q apart. rw apart refl,
      )

  -- An entry without links becomes the youngest one.
  pub attach_to_cache-ok :
      (p : Address) (k : K) (v : V) (c : Cache S K V)
      → c.entries p ≡ some (entry_of k v none none)
      → IsAlive c.youngest c.entries
      → Misses c.youngest p
      → (n : Entries K V) × (attach_to_cache p c
          ≡ ok tt (relinked c n (unless c.youngest (some p) c.oldest) (some p)))
        × (n p ≡ some (entry_of k v c.youngest none))
        × ((q : Address) → (q == p) ≡ false → n q ≡ put_child c.youngest (some p) c.entries q)
  unfolding attach_to_cache
  attach_to_cache-ok p k v c at alive miss = attach_behind-ok c.youngest alive miss
    where
      attach_behind-ok :
          (y : Option Address)
          → IsAlive y c.entries
          → Misses y p
          → (n : Entries K V) × (attach_behind p y c
              ≡ ok tt (relinked c n (unless y (some p) c.oldest) (some p)))
            × (n p ≡ some (entry_of k v y none))
            × ((q : Address) → (q == p) ≡ false → n q ≡ put_child y (some p) c.entries q)
      attach_behind-ok none alive miss = (c.entries, refl, at, λ q apart. refl)
      attach_behind-ok (some o) (e, there) miss =
          let m1 = write p (some (entry_of k v (some o) none)) c.entries in
          let c1 = record c { entries = m1 } in
          let other : (o == p) ≡ false = ground (arith, miss) in
          let there1 : m1 o ≡ some e = rw other there in
          let same : (p == p) ≡ true = ground arith in
          (
            write o (some (with_child (some p) e)) m1,
            rw (set_parent-write p (some o) c (entry_of k v none none) at)
                (rw (set_child-write o (some p) c1 e there1) refl),
            rw (miss, same) refl,
            λ q apart. rw (apart, there) refl,
          )

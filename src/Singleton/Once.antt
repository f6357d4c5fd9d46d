-- ===== src/Singleton/Once.antt =====
-- What threads can rely on that call the functions of RS485/tl/native_client/jni/utils/Singleton.h.
use qf.Prelude.{
  ℕ, ◌+◌, ◌<◌, ◌≤◌, List, Option, none, some, true, false, ◌≡◌, refl, sym, ◌∙◌, arith, ◌==◌,
  if◌then◌else◌, length, Bool-cases, Option-cases, inl, inr,
}
use qf.Mutex.{Thread, MutexApi, IsMutexApi, autolock-free}
use qf.Singleton.{
  Address, Pc, idle, get_called, get_locked, get_read, get_made, get_ready, has_called, has_locked,
  has_ready, System, is_set, at_thread, goes, statement, advance, Reach,
}
use qf.Singleton.Invariant.{inside, making, pending, IsFresh, IsSound, Inv}
use qf.Singleton.Steps.{Reach-Inv}

one_at_most : (o : Option Address) → (if is_set o then 1 else 0) + 0 ≤ 1
one_at_most none = omega arith
one_at_most (some a) = omega arith

-- The instance is not set while a thread has made one.
IsFresh-making :
    (o : Option Address) (p : Pc) → IsFresh o p → (if is_set o then 1 else 0) + making p ≤ 1
IsFresh-making o (get_made a) fresh = rw fresh (omega arith)
IsFresh-making o idle fresh = one_at_most o
IsFresh-making o get_called fresh = one_at_most o
IsFresh-making o get_locked fresh = one_at_most o
IsFresh-making o (get_read q) fresh = one_at_most o
IsFresh-making o (get_ready a) fresh = one_at_most o
IsFresh-making o has_called fresh = one_at_most o
IsFresh-making o has_locked fresh = one_at_most o
IsFresh-making o (has_ready b) fresh = one_at_most o

-- The statements that are left of the call that a thread runs, at most.
abbrev pub left : Pc → ℕ
left idle = 0
left get_called = 5
left get_locked = 4
left (get_read q) = 3
left (get_made a) = 2
left (get_ready a) = 1
left has_called = 3
left has_locked = 2
left (has_ready b) = 1

-- A thread takes a step that shortens its call.
abbrev pub Shortens :
    {M : Type 0} → MutexApi M → (List Address → Address) → System M → Thread → Type 0
Shortens {M} api allocate s j =
    (t : System M) × (advance api allocate j s ≡ some t) × (left (t.pc j) < left (s.pc j))

module _ {M : Type 0} (api : MutexApi M) (allocate : List Address → Address)
    (owner : M → Option Thread) (busy : ℕ) (laws : IsMutexApi api owner busy) (s : System M) where
  -- In every state that threads reach, at most one object has been made, every call of `getInstance`
  -- that has returned gave the one instance, and `hasInstance` returned true only with an instance.
  pub Reach-IsSound : Reach api allocate s → (length s.made ≤ 1) × IsSound s.instance_ s.returned
  Reach-IsSound reached =
      let inv = Reach-Inv api allocate owner busy laws s reached in
      (rw inv.once (made_few inv (owner s.mutex)), inv.sound)
    where
      made_few :
          Inv owner s
          → (o : Option Thread) → (if is_set s.instance_ then 1 else 0) + pending s.pc o ≤ 1
      made_few inv none = one_at_most s.instance_
      made_few inv (some i) = IsFresh-making s.instance_ (s.pc i) (inv.fresh i)

  -- In every state that threads reach, at most one of them is between the lock and its release.
  pub Reach-exclusive :
      Reach api allocate s
      → (i j : Thread) → inside (s.pc i) ≡ true
      → inside (s.pc j) ≡ true
      → i ≡ j
  Reach-exclusive reached i j in_i in_j =
      let inv = Reach-Inv api allocate owner busy laws s reached in
      let e : some i ≡ some j = sym (inv.holder i in_i) ∙ inv.holder j in_j in cc e

  goes-left : (j : Thread) (p : Pc) (t : System M) → left (at_thread j p t.pc j) ≡ left p
  goes-left j p t = let same : (j == j) ≡ true = ground arith in rw same refl

  inside-Shortens :
      (j : Thread) (p : Pc)
      → inside p ≡ true
      → (t : System M) × (statement api allocate j p s ≡ some t) × (left (t.pc j) < left p)
  inside-Shortens j idle in_it = cc in_it
  inside-Shortens j get_called in_it = cc in_it
  inside-Shortens j has_called in_it = cc in_it
  inside-Shortens j get_locked in_it =
      (_, refl, omega (arith, goes-left j (get_read s.instance_) s))
  inside-Shortens j (get_read none) in_it =
      (_, refl, omega (arith, goes-left j (get_made (allocate s.made)) s))
  inside-Shortens j (get_read (some a)) in_it =
      (_, refl, omega (arith, goes-left j (get_ready a) s))
  inside-Shortens j (get_made a) in_it = (_, refl, omega (arith, goes-left j (get_ready a) s))
  inside-Shortens j (get_ready a) in_it = (_, refl, omega (arith, goes-left j idle s))
  inside-Shortens j has_locked in_it =
      (_, refl, omega (arith, goes-left j (has_ready (is_set s.instance_)) s))
  inside-Shortens j (has_ready b) in_it = (_, refl, omega (arith, goes-left j idle s))

  free-Shortens :
      (i : Thread) (p : Pc)
      → owner s.mutex ≡ none
      → inside p ≡ false
      → 0 < left p
      → (t : System M) × (statement api allocate i p s ≡ some t) × (left (t.pc i) < left p)
  free-Shortens i idle free out more = absurd (omega (arith, more))
  free-Shortens i get_called free out more =
      let (m, runs, own) = autolock-free api owner busy laws i s.mutex free in
      (
        goes api allocate i get_locked (record s { mutex = m }),
        rw runs refl,
        omega (arith, goes-left i get_locked s),
      )
  free-Shortens i has_called free out more =
      let (m, runs, own) = autolock-free api owner busy laws i s.mutex free in
      (
        goes api allocate i has_locked (record s { mutex = m }),
        rw runs refl,
        omega (arith, goes-left i has_locked s),
      )
  free-Shortens i get_locked free out more = cc out
  free-Shortens i (get_read q) free out more = cc out
  free-Shortens i (get_made a) free out more = cc out
  free-Shortens i (get_ready a) free out more = cc out
  free-Shortens i has_locked free out more = cc out
  free-Shortens i (has_ready b) free out more = cc out

  -- In every state that threads reach in which a call runs, some thread can take the next statement
  -- of its call, which leaves fewer of them: the threads never wait for each other forever.
  pub Reach-Shortens :
      Reach api allocate s
      → (i : Thread) → 0 < left (s.pc i)
      → (j : Thread) × Shortens api allocate s j
  unfolding advance
  Reach-Shortens reached i more =
      let inv = Reach-Inv api allocate owner busy laws s reached in
      elim (Option-cases (owner s.mutex)) [
        | inl free ↦ elim (Bool-cases (inside (s.pc i))) [
          | inl on ↦ let e : none ≡ some i = sym free ∙ inv.holder i on in cc e
          | inr out ↦ (i, free-Shortens i (s.pc i) free out more)
        ]
        | inr (j, own) ↦ (j, inside-Shortens j (s.pc j) (inv.held j own))
      ]

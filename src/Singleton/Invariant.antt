-- ===== src/Singleton/Invariant.antt =====
-- What holds while threads run `getInstance` and `hasInstance` of
-- RS485/tl/native_client/jni/utils/Singleton.h.
use qf.Prelude.{
  ℕ, ◌+◌, List, [], ◌∷◌, Option, none, some, Bool, true, false, ◌≡◌, refl, sym, ap, ◌∙◌, arith,
  ◌==◌, if◌then◌else◌, length, ==_iff, Bool-cases, inl, inr,
}
use qf.Mutex.{Thread}
use qf.Singleton.{
  Address, Pc, idle, get_called, get_locked, get_read, get_made, get_ready, has_called, has_locked,
  has_ready, Result, instance_at, has, System, is_set, at_thread,
}

-- The thread holds the lock.
abbrev pub inside : Pc → Bool
inside idle = false
inside get_called = false
inside has_called = false
inside p = true

-- It has made an object, and not set `sInstance` yet.
abbrev pub making : Pc → ℕ
making (get_made a) = 1
making p = 0

abbrev pub pending : (Thread → Pc) → Option Thread → ℕ
pending pc none = 0
pending pc (some i) = making (pc i)

-- What the local variable of a thread says of `sInstance`.
abbrev pub IsFresh : Option Address → Pc → Type 0
IsFresh o (get_read q) = o ≡ q
IsFresh o (get_made a) = o ≡ none
IsFresh o (get_ready a) = o ≡ some a
IsFresh o (has_ready b) = is_set o ≡ b
IsFresh o p = Unit {0}

-- What a call has returned is the instance.
abbrev pub Sound : Option Address → Result → Type 0
Sound o (instance_at a) = o ≡ some a
Sound o (has b) = b ≡ true → is_set o ≡ true

abbrev pub IsSound : Option Address → List Result → Type 0
IsSound o [] = Unit {0}
IsSound o (r ∷ rs) = Sound o r × IsSound o rs

pub outside-IsFresh : (o : Option Address) (p : Pc) → inside p ≡ false → IsFresh o p
outside-IsFresh o idle out = tt
outside-IsFresh o get_called out = tt
outside-IsFresh o has_called out = tt
outside-IsFresh o get_locked out = tt
outside-IsFresh o has_locked out = tt
outside-IsFresh o (get_read q) out = cc out
outside-IsFresh o (get_made a) out = cc out
outside-IsFresh o (get_ready a) out = cc out
outside-IsFresh o (has_ready b) out = cc out

outside-making : (p : Pc) → inside p ≡ false → making p ≡ 0
outside-making idle out = refl
outside-making get_called out = refl
outside-making has_called out = refl
outside-making get_locked out = refl
outside-making has_locked out = refl
outside-making (get_read q) out = refl
outside-making (get_made a) out = cc out
outside-making (get_ready a) out = refl
outside-making (has_ready b) out = refl

pub IsSound-set :
    (o : Option Address) (a : Address) (rs : List Result)
    → o ≡ none
    → IsSound o rs
    → IsSound (some a) rs
IsSound-set o a [] e s = tt
IsSound-set o a (instance_at b ∷ rs) e (at, s) = let e' : none ≡ some b = sym e ∙ at in cc e'
IsSound-set o a (has b ∷ rs) e (h, s) = (λ on. refl, IsSound-set o a rs e s)

-- The thread `i` moves to `p`, and the rest of the system is as given.
abbrev pub moved_to :
    {M : Type 0}
    → System M
    → Thread
    → Pc
    → M
    → Option Address
    → List Address
    → List Result
    → System M
moved_to s i p m o made returned = record {
  mutex = m;
  instance_ = o;
  made = made;
  returned = returned;
  pc = at_thread i p s.pc;
}

module _ {M : Type 0} (owner : M → Option Thread) where
  pub record Inv (s : System M) : Type 0 where
    pub holder : (i : Thread) → inside (s.pc i) ≡ true → owner s.mutex ≡ some i
    pub held : (i : Thread) → owner s.mutex ≡ some i → inside (s.pc i) ≡ true
    pub fresh : (i : Thread) → IsFresh s.instance_ (s.pc i)
    pub once : length s.made ≡ (if is_set s.instance_ then 1 else 0) + pending s.pc (owner s.mutex)
    pub sound : IsSound s.instance_ s.returned

  -- The thread holds the lock after that if `p` is inside.
  module _ (s : System M) (i : Thread) (p : Pc) (inv : Inv s) where
    pending_moved :
        (m : M)
        → owner m ≡ (if inside p then some i else none)
        → pending (at_thread i p s.pc) (owner m) ≡ making p
    pending_moved m own = elim (Bool-cases (inside p)) [
      | inl in_it ↦
          let e : owner m ≡ some i = rw in_it at own in
          let same : (i == i) ≡ true = ground arith in rw e (rw same refl)
      | inr out ↦ let e : owner m ≡ none = rw out at own in rw e (sym (outside-making p out))
    ]

    pub moved_to-Inv :
        (m : M) (o : Option Address) (made : List Address) (returned : List Result)
        → ((j : Thread) → (j == i) ≡ false → inside (s.pc j) ≡ false)
        → owner m ≡ (if inside p then some i else none)
        → IsFresh o p
        → length made ≡ (if is_set o then 1 else 0) + making p
        → IsSound o returned
        → Inv (moved_to s i p m o made returned)
    moved_to-Inv m o made returned others own fresh once sound = record {
      holder = λ j h. elim (Bool-cases (j == i)) [
        | inl on ↦
            let e : j ≡ i = (==_iff j i).0 on in
            let h' : inside p ≡ true = rw on at h in rw (own, h') (ap some (sym e))
        | inr off ↦ let h' : inside (s.pc j) ≡ true = rw off at h in cc (others j off, h')
      ];
      held = λ j h. elim (Bool-cases (inside p)) [
        | inl in_it ↦
            let e : some i ≡ some j = sym (rw in_it at own) ∙ h in
            let on : (j == i) ≡ true = (==_iff j i).1 (cc e) in rw on in_it
        | inr out ↦ let e : none ≡ some j = sym (rw out at own) ∙ h in cc e
      ];
      fresh = λ j. elim (Bool-cases (j == i)) [
        | inl on ↦ rw on fresh
        | inr off ↦ rw off (outside-IsFresh o (s.pc j) (others j off))
      ];
      once = once ∙ ap (λ n. (if is_set o then 1 else 0) + n) (sym (pending_moved m own));
      sound = sound;
    }

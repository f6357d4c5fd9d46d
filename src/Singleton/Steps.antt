-- ===== src/Singleton/Steps.antt =====
-- Every step of threads that run the functions of RS485/tl/native_client/jni/utils/Singleton.h keeps
-- the invariant.
use mathlib.Core.Path.{subst}
use qf.Prelude.{
  ℕ, suc, ◌+◌, List, ◌∷◌, Option, none, some, true, false, ◌≡◌, refl, sym, ap, ◌∙◌, ◌==◌,
  if◌then◌else◌, length, ==_iff, Bool-cases, Option-cases, inl, inr,
}
use qf.Mutex.{
  Thread, MutexApi, IsMutexApi, autolock, end_autolock, autolock-free, autolock-held,
  end_autolock-free, new_mutex_of,
}
use qf.Singleton.{
  Address, Pc, idle, get_called, get_locked, get_read, get_made, get_ready, has_called, has_locked,
  has_ready, Result, instance_at, has, System, is_set, at_thread, static_instance, goes, locked_at,
  leave, statement, advance, Step, call_get, call_has, proceed, Reach, start, later,
}
use qf.Singleton.Invariant.{
  inside, making, pending, IsFresh, Sound, IsSound, outside-IsFresh, IsSound-set, Inv, moved_to,
  moved_to-Inv,
}

-- What a statement leaves, if the thread does not wait.
abbrev OnSome : {A : Type 0} → (A → Type 0) → Option A → Type 0
OnSome P none = Unit {0}
OnSome P (some a) = P a

module _ {M : Type 0} (api : MutexApi M) (allocate : List Address → Address)
    (owner : M → Option Thread) (busy : ℕ) (laws : IsMutexApi api owner busy) where
  module _ (s : System M) (i : Thread) (inv : Inv owner s) where
    pub others_outside :
        owner s.mutex ≡ some i → (j : Thread) → (j == i) ≡ false → inside (s.pc j) ≡ false
    others_outside own j off = elim (Bool-cases (inside (s.pc j))) [
      | inl on ↦
          let e : some i ≡ some j = sym own ∙ inv.holder j on in
          let same : (j == i) ≡ true = (==_iff j i).1 (cc e) in cc (same, off)
      | inr out ↦ out
    ]

    all_outside : owner s.mutex ≡ none → (j : Thread) → inside (s.pc j) ≡ false
    all_outside free j = elim (Bool-cases (inside (s.pc j))) [
      | inl on ↦ let e : none ≡ some j = sym free ∙ inv.holder j on in cc e
      | inr out ↦ out
    ]

    -- A call starts.
    called-Inv : (p : Pc) → s.pc i ≡ idle → inside p ≡ false → Inv owner (goes api allocate i p s)
    called-Inv p here out = record {
      holder = λ j h. elim (Bool-cases (j == i)) [
        | inl on ↦ let h' : inside p ≡ true = rw on at h in cc (h', out)
        | inr off ↦ inv.holder j (rw off at h)
      ];
      held = λ j h. elim (Bool-cases (j == i)) [
        | inl on ↦ absurd (not_held j on h)
        | inr off ↦ rw off (inv.held j h)
      ];
      fresh = λ j. elim (Bool-cases (j == i)) [
        | inl on ↦ rw on (outside-IsFresh s.instance_ p out)
        | inr off ↦ rw off (inv.fresh j)
      ];
      once = inv.once ∙ ap (λ n. (if is_set s.instance_ then 1 else 0) + n) (sym same_pending);
      sound = inv.sound;
    }
      where
        not_held : (j : Thread) → (j == i) ≡ true → owner s.mutex ≡ some j → ⊥
        not_held j on h =
            let e : s.pc j ≡ idle = ap s.pc ((==_iff j i).0 on) ∙ here in
            let h' : inside idle ≡ true = ap inside (sym e) ∙ inv.held j h in cc h'

        same_pending : pending (at_thread i p s.pc) (owner s.mutex) ≡ pending s.pc (owner s.mutex)
        same_pending = elim (Option-cases (owner s.mutex)) [
          | inl free ↦ rw free refl
          | inr (j, h) ↦ elim (Bool-cases (j == i)) [
            | inl on ↦ absurd (not_held j on h)
            | inr off ↦ rw h (rw off refl)
          ]
        ]

    -- A thread gets the lock, or waits for it.
    lock-Inv :
        (p : Pc)
        → inside p ≡ true
        → making p ≡ 0
        → IsFresh s.instance_ p
        → OnSome (Inv owner) (locked_at api allocate i p s (autolock api i s.mutex))
    lock-Inv p in_it none_made fresh = elim (Option-cases (owner s.mutex)) [
      | inl free ↦
          let (m, runs, own) = autolock-free api owner busy laws i s.mutex free in
          rw runs (
            moved_to-Inv owner s i p inv m s.instance_ s.made s.returned
              (λ j off. all_outside free j) (rw in_it own) fresh
              (inv.once ∙ rw (free, none_made) refl) inv.sound)
      | inr (j, held) ↦ rw (autolock-held api owner busy laws i j s.mutex held) tt
    ]

    module _ (own : owner s.mutex ≡ some i) where
      made_so_far :
          (p : Pc) → s.pc i ≡ p → length s.made ≡ (if is_set s.instance_ then 1 else 0) + making p
      made_so_far p here = inv.once ∙ rw own (rw here refl)

      -- A statement under the lock.
      inside-Inv :
          (p : Pc) (o : Option Address) (made : List Address)
          → inside p ≡ true
          → IsFresh o p
          → length made ≡ (if is_set o then 1 else 0) + making p
          → IsSound o s.returned
          → Inv owner (moved_to s i p s.mutex o made s.returned)
      inside-Inv p o made in_it fresh once sound =
          moved_to-Inv owner s i p inv s.mutex o made s.returned (others_outside own) (rw in_it own)
            fresh once sound

      -- A call returns.
      leave-Inv :
          (p : Pc) (r : Result)
          → s.pc i ≡ p
          → making p ≡ 0
          → Sound s.instance_ r
          → Inv owner (leave api allocate i r s)
      leave-Inv p r here none_made fits =
          moved_to-Inv owner s i idle inv (end_autolock api i s.mutex) s.instance_ s.made
            (r ∷ s.returned) (others_outside own)
            (end_autolock-free api owner busy laws i s.mutex own) tt
            (made_so_far p here ∙ rw none_made refl) (fits, inv.sound)

    -- The next statement of a thread.
    statement-Inv : (p : Pc) → s.pc i ≡ p → OnSome (Inv owner) (statement api allocate i p s)
    statement-Inv idle here = tt
    statement-Inv get_called here = lock-Inv get_locked refl refl tt
    statement-Inv has_called here = lock-Inv has_locked refl refl tt
    statement-Inv get_locked here =
        let own = inv.holder i (ap inside here) in
        inside-Inv own (get_read s.instance_) s.instance_ s.made refl refl
          (made_so_far own get_locked here) inv.sound
    statement-Inv has_locked here =
        let own = inv.holder i (ap inside here) in
        inside-Inv own (has_ready (is_set s.instance_)) s.instance_ s.made refl refl
          (made_so_far own has_locked here) inv.sound
    statement-Inv (get_read none) here =
        let own = inv.holder i (ap inside here) in
        let unset : s.instance_ ≡ none = rw here at (inv.fresh i) in
        inside-Inv own (get_made (allocate s.made)) s.instance_ (allocate s.made ∷ s.made) refl
          unset (ap suc (made_so_far own (get_read none) here) ∙ rw unset refl) inv.sound
    statement-Inv (get_read (some a)) here =
        let own = inv.holder i (ap inside here) in
        inside-Inv own (get_ready a) s.instance_ s.made refl (rw here at (inv.fresh i))
          (made_so_far own (get_read (some a)) here) inv.sound
    statement-Inv (get_made a) here =
        let own = inv.holder i (ap inside here) in
        let unset : s.instance_ ≡ none = rw here at (inv.fresh i) in
        inside-Inv own (get_ready a) (some a) s.made refl refl
          (made_so_far own (get_made a) here ∙ rw unset refl)
          (IsSound-set s.instance_ a s.returned unset inv.sound)
    statement-Inv (get_ready a) here =
        leave-Inv (inv.holder i (ap inside here)) (get_ready a) (instance_at a) here refl
          (rw here at (inv.fresh i))
    statement-Inv (has_ready b) here =
        leave-Inv (inv.holder i (ap inside here)) (has_ready b) (has b) here refl
          (λ on. (rw here at (inv.fresh i)) ∙ on)

  advance-Inv :
      (s : System M) (i : Thread) → Inv owner s → OnSome (Inv owner) (advance api allocate i s)
  unfolding advance
  advance-Inv s i inv = statement-Inv s i inv (s.pc i) refl

  static_instance-Inv : Inv owner (static_instance api allocate)
  unfolding static_instance new_mutex_of
  static_instance-Inv =
      let free = laws.free_at_init.0 in
      record {
        holder = λ i h. cc h;
        held = λ i h. let e : none ≡ some i = sym free ∙ h in cc e;
        fresh = λ i. tt;
        once = rw free refl;
        sound = tt;
      }

  Step-Inv : (s t : System M) → Step api allocate s t → Inv owner s → Inv owner t
  Step-Inv s t (call_get i here) inv = called-Inv s i inv get_called here refl
  Step-Inv s t (call_has i here) inv = called-Inv s i inv has_called here refl
  Step-Inv s t (proceed i runs) inv = subst (OnSome (Inv owner)) runs (advance-Inv s i inv)

  pub Reach-Inv : (s : System M) → Reach api allocate s → Inv owner s
  Reach-Inv s start = static_instance-Inv
  Reach-Inv s (later {s = r} before step) = Step-Inv r s step (Reach-Inv r before)

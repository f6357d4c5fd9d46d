-- ===== src/WeakPointer/Counted.antt =====
-- Every operation of `wp` of RS485/tl/native_client/jni/utils/RefBase.h keeps the weak counts.
use qf.Prelude.{ℕ, ◌+◌, ◌-◌, ◌<◌, ◌^◌, ◌≡◌, refl, ap, arith, Option, none, some}
use qf.StrongPointer.{Object}
use qf.WeakPointer.{
  Refs, RefApi, RefsPointer, unset, at, Weak, weak, World, weak_at, add, put, dec_if, wp_of_pointer,
  wp_copy, wp_copy_derived, wp_destroy, wp_assign_pointer, wp_assign, set_object_and_refs, wp_clear,
}
use qf.WeakPointer.Holders.{
  points, points_to, holders-append, holders-set, holders_of_held, holders-length, Sound,
  AllSound-append, AllSound-set, AllSound-get, IsRefApi, AtLeastOne, inc_if-Gains, dec_if-Loses,
  new_refs-Gains,
}
use qf.WeakPointer.Runs.{weak_at-get, IsCounted, Counts, IsKept, HasRoom}

module _ {S : Type 0} (api : RefApi S) (laws : IsRefApi api) (others : Refs → ℕ) (w : World S)
    (counted : IsCounted api others w) where
  pub added-IsCounted :
      (h : Weak) (t : S)
      → Sound api (some h)
      → ((q : Refs) → api.weak_count q t ≡ api.weak_count q w.state + points (some h) q)
      → IsCounted api others (add h t w)
  added-IsCounted h t sound gain = record {
    count = λ q. omega (arith, gain q, counted.count q, holders-append q w.handles (some h));
    sound = AllSound-append api w.handles (some h) counted.sound sound;
  }

  pub replaced-IsCounted :
      (i : ℕ) (h : Weak) (k : Option Weak) (t : S)
      → weak_at i w ≡ some h
      → Sound api k
      → ((q : Refs)
          → api.weak_count q t + points (some h) q ≡ api.weak_count q w.state + points k q)
      → IsCounted api others (put i k t w)
  replaced-IsCounted i h k t here sound change = record {
    count = λ q. omega (
      arith,
      change q,
      counted.count q,
      holders-set q w.handles i (some h) k (weak_at-get i w h here),
    );
    sound = AllSound-set api w.handles i k counted.sound sound;
  }

  pub Sound-weak_at : (i : ℕ) (h : Weak) → weak_at i w ≡ some h → Sound api (some h)
  Sound-weak_at i h here =
      AllSound-get api w.handles i (some h) counted.sound (weak_at-get i w h here)

  points_self :
      (p : Option Object) (r : RefsPointer) (o : Object)
      → p ≡ some o
      → r ≡ at (api.refs_of o)
      → points_to p r (api.refs_of o) ≡ 1
  points_self p r o e f = rw (e, f) (ground arith)

  pub held_live : (i : ℕ) (h : Weak) → weak_at i w ≡ some h → AtLeastOne api laws h.m_ptr w.state
  held_live i h here o e = omega (
    arith,
    points_self h.m_ptr h.m_refs o e (Sound-weak_at i h here o e),
    counted.count (api.refs_of o),
    holders_of_held (api.refs_of o) w.handles i (some h) (weak_at-get i w h here),
  )

  pub kept_live : (p : Option Object) → IsKept api others p → AtLeastOne api laws p w.state
  kept_live p kept o e = omega (arith, kept o e, counted.count (api.refs_of o))

  pub still_live :
      (p : Option Object) (t : S) (gain : Refs → ℕ)
      → ((q : Refs) → api.weak_count q t ≡ api.weak_count q w.state + gain q)
      → AtLeastOne api laws p w.state
      → AtLeastOne api laws p t
  still_live p t gain more live o e = omega (arith, live o e, more (api.refs_of o))

  pub room_small : HasRoom api others w → (q : Refs) → api.weak_count q w.state < 2 ^ 31 - 1
  room_small room q = omega (arith, room q, counted.count q, holders-length q w.handles)

  -- The references of `w` after a gain.
  gained-live :
      (i : ℕ) (h : Weak) (t : S) (p : Option Object) (r : RefsPointer)
      → weak_at i w ≡ some h
      → ((q : Refs) → api.weak_count q t ≡ api.weak_count q w.state + points_to p r q)
      → AtLeastOne api laws h.m_ptr t
  gained-live i h t p r here gain = still_live h.m_ptr t (points_to p r) gain (held_live i h here)

  pub wp_of_pointer-Counts :
      (p : Option Object)
      → IsKept api others p
      → HasRoom api others w
      → Counts api others (wp_of_pointer api p w)
  unfolding wp_of_pointer
  wp_of_pointer-Counts none kept room =
      (_, refl, added-IsCounted (weak none unset) w.state (λ o e. cc e) (λ q. omega arith))
  wp_of_pointer-Counts (some o) kept room =
      let (t, returns, gain) =
        laws.create o w.state (kept_live (some o) kept o refl) (room_small room (api.refs_of o)) in
      (
        _,
        rw returns refl,
        added-IsCounted (weak (some o) (at (api.refs_of o))) t
            (λ o' e. let same : o ≡ o' = cc e in ap (λ x. at (api.refs_of x)) same) gain,
      )

  pub wp_copy-Counts :
      (j : ℕ) (h : Weak)
      → weak_at j w ≡ some h
      → HasRoom api others w
      → Counts api others (wp_copy api j w)
  unfolding wp_copy
  wp_copy-Counts j h here room =
      let (t, returns, gain) =
        inc_if-Gains api laws h.m_ptr h.m_refs w.state (Sound-weak_at j h here) (held_live j h here)
          (room_small room) in
      (_, rw here (rw returns refl), added-IsCounted h t (Sound-weak_at j h here) gain)

  pub wp_copy_derived-Counts :
      (j : ℕ) (p : Option Object) (r : RefsPointer)
      → weak_at j w ≡ some (weak p r)
      → HasRoom api others w
      → Counts api others (wp_copy_derived api j w)
  unfolding wp_copy_derived
  wp_copy_derived-Counts j none r here room =
      (_, rw here refl, added-IsCounted (weak none unset) w.state (λ o e. cc e) (λ q. omega arith))
  wp_copy_derived-Counts j (some o) r here room =
      let h = weak (some o) r in
      let (t, returns, gain) =
        inc_if-Gains api laws (some o) r w.state (Sound-weak_at j h here) (held_live j h here)
          (room_small room) in
      (_, rw here (rw returns refl), added-IsCounted h t (Sound-weak_at j h here) gain)

  pub wp_destroy-Counts :
      (i : ℕ) (h : Weak) → weak_at i w ≡ some h → Counts api others (wp_destroy api i w)
  unfolding wp_destroy
  wp_destroy-Counts i h here =
      let (t, returns, loss) =
        dec_if-Loses api laws h.m_ptr h.m_refs w.state (Sound-weak_at i h here)
          (held_live i h here) in
      (
        _,
        rw here (rw returns refl),
        replaced-IsCounted i h none t here tt (λ q. omega (arith, loss q)),
      )

  -- A handle takes a new object, and then leaves its old one.
  exchanged-Counts :
      (i : ℕ) (h : Weak) (p : Option Object) (r : RefsPointer) (t : S)
      → weak_at i w ≡ some h
      → Sound api (some (weak p r))
      → ((q : Refs) → api.weak_count q t ≡ api.weak_count q w.state + points_to p r q)
      → (v : S) × (dec_if api h t ≡ some v) × IsCounted api others (put i (some (weak p r)) v w)
  exchanged-Counts i h p r t here sound gain =
      let (v, returns, loss) =
        dec_if-Loses api laws h.m_ptr h.m_refs t (Sound-weak_at i h here)
          (gained-live i h t p r here gain) in
      (
        v,
        returns,
        replaced-IsCounted i h (some (weak p r)) v here sound (λ q. omega (arith, loss q, gain q)),
      )

  pub wp_assign_pointer-Counts :
      (i : ℕ) (h : Weak) (p : Option Object)
      → weak_at i w ≡ some h
      → IsKept api others p
      → HasRoom api others w
      → Counts api others (wp_assign_pointer api i p w)
  unfolding wp_assign_pointer weak_at
  wp_assign_pointer-Counts i h p here kept room =
      let (r, t, returns, sound, gain) =
        new_refs-Gains api laws p w.state (kept_live p kept) (room_small room) in
      let (v, returns', counted') = exchanged-Counts i h p r t here sound gain in
      (_, rw returns (rw here (rw returns' refl)), counted')

  pub wp_assign-Counts :
      (i j : ℕ) (h k : Weak)
      → weak_at i w ≡ some h
      → weak_at j w ≡ some k
      → HasRoom api others w
      → Counts api others (wp_assign api i j w)
  unfolding wp_assign
  wp_assign-Counts i j h k here from room =
      let (t, returns, gain) =
        inc_if-Gains api laws k.m_ptr k.m_refs w.state (Sound-weak_at j k from) (held_live j k from)
          (room_small room) in
      let (v, returns', counted') =
        exchanged-Counts i h k.m_ptr k.m_refs t here (Sound-weak_at j k from) gain in
      (_, rw from (rw returns (rw here (rw returns' refl))), counted')

  pub set_object_and_refs-Counts :
      (i : ℕ) (h : Weak) (p : Option Object) (r : RefsPointer)
      → weak_at i w ≡ some h
      → IsKept api others p
      → Sound api (some (weak p r))
      → HasRoom api others w
      → Counts api others (set_object_and_refs api i p r w)
  unfolding set_object_and_refs
  set_object_and_refs-Counts i h p r here kept sound room =
      let (t, returns, gain) =
        inc_if-Gains api laws p r w.state sound (kept_live p kept) (room_small room) in
      let (v, returns', counted') = exchanged-Counts i h p r t here sound gain in
      (_, rw returns (rw here (rw returns' refl)), counted')

  pub wp_clear-Counts :
      (i : ℕ) (p : Option Object) (r : RefsPointer)
      → weak_at i w ≡ some (weak p r)
      → Counts api others (wp_clear api i w)
  unfolding wp_clear
  wp_clear-Counts i none r here = (w, rw here refl, counted)
  wp_clear-Counts i (some o) r here =
      let h = weak (some o) r in
      let (t, returns, loss) =
        dec_if-Loses api laws (some o) r w.state (Sound-weak_at i h here) (held_live i h here) in
      (
        _,
        rw here (rw returns refl),
        replaced-IsCounted i h (some (weak none r)) t here (λ o' e. cc e)
            (λ q. omega (arith, loss q)),
      )

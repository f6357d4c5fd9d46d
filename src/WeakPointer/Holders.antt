-- ===== src/WeakPointer/Holders.antt =====
-- How many handles of a program hold the references of an object, and what each operation of `wp`
-- does to the weak counts.
use mathlib.Core.Path.{subst}
use qf.Prelude.{
  ℕ, zero, suc, ◌+◌, ◌-◌, ◌<◌, ◌≤◌, ◌^◌, ◌≡◌, refl, ap, arith, List, [], ◌∷◌, ◌++◌, Option, none,
  some, ◌==◌, if◌then◌else◌, length, get_elem?, set,
}
use qf.StrongPointer.{Object}
use qf.WeakPointer.{
  Refs, RefApi, RefsPointer, unset, null, at, Weak, weak, inc_if, dec_if, new_refs,
}

abbrev pub points_to : Option Object → RefsPointer → Refs → ℕ
points_to none r q = 0
points_to (some o) unset q = 0
points_to (some o) null q = 0
points_to (some o) (at r) q = if q == r then 1 else 0

abbrev pub points : Option Weak → Refs → ℕ
points none q = 0
points (some h) q = points_to h.m_ptr h.m_refs q

unfoldable pub holders : Refs → List (Option Weak) → ℕ
holders q [] = 0
holders q (h ∷ hs) = points h q + holders q hs

pub holders-append :
    (q : Refs) (hs : List (Option Weak)) (h : Option Weak)
    → holders q (hs ++ h ∷ []) ≡ holders q hs + points h q
unfolding holders
holders-append q [] h = omega arith
holders-append q (k ∷ hs) h = omega (arith, holders-append q hs h)

pub holders-set :
    (q : Refs) (hs : List (Option Weak)) (i : ℕ) (h k : Option Weak)
    → get_elem? hs i ≡ some h
    → holders q (set hs i k) + points h q ≡ holders q hs + points k q
unfolding holders
holders-set q [] i h k e = cc e
holders-set q (g ∷ hs) zero h k e = ground (arith, e)
holders-set q (g ∷ hs) (suc i) h k e = omega (arith, holders-set q hs i h k e)

pub holders_of_held :
    (q : Refs) (hs : List (Option Weak)) (i : ℕ) (h : Option Weak)
    → get_elem? hs i ≡ some h
    → points h q ≤ holders q hs
unfolding holders
holders_of_held q [] i h e = cc e
holders_of_held q (g ∷ hs) zero h e = ground (arith, e)
holders_of_held q (g ∷ hs) (suc i) h e = omega (arith, holders_of_held q hs i h e)

pub holders-length : (q : Refs) (hs : List (Option Weak)) → holders q hs ≤ length hs
unfolding holders
holders-length q [] = omega arith
holders-length q (none ∷ hs) = omega (arith, holders-length q hs)
holders-length q (some h ∷ hs) = omega (arith, holders-length q hs, points_to-le h.m_ptr h.m_refs q)
  where
    points_to-le : (p : Option Object) (r : RefsPointer) (q : Refs) → points_to p r q ≤ 1
    points_to-le none r q = omega arith
    points_to-le (some o) unset q = omega arith
    points_to-le (some o) null q = omega arith
    points_to-le (some o) (at r) q = ground arith

module _ {S : Type 0} (api : RefApi S) where
  -- A handle of an object has the references of that object.
  abbrev pub Sound : Option Weak → Type 0
  Sound none = Unit {0}
  Sound (some h) = (o : Object) → h.m_ptr ≡ some o → h.m_refs ≡ at (api.refs_of o)

  abbrev pub AllSound : List (Option Weak) → Type 0
  AllSound [] = Unit {0}
  AllSound (h ∷ hs) = Sound h × AllSound hs

  pub AllSound-append :
      (hs : List (Option Weak)) (h : Option Weak) → AllSound hs → Sound h → AllSound (hs ++ h ∷ [])
  AllSound-append [] h s t = (t, s)
  AllSound-append (g ∷ hs) h (s, rest) t = (s, AllSound-append hs h rest t)

  pub AllSound-set :
      (hs : List (Option Weak)) (i : ℕ) (h : Option Weak)
      → AllSound hs
      → Sound h
      → AllSound (set hs i h)
  AllSound-set [] i h s t = s
  AllSound-set (g ∷ hs) zero h (s, rest) t = (t, rest)
  AllSound-set (g ∷ hs) (suc i) h (s, rest) t = (s, AllSound-set hs i h rest t)

  pub AllSound-get :
      (hs : List (Option Weak)) (i : ℕ) (h : Option Weak)
      → AllSound hs
      → get_elem? hs i ≡ some h
      → Sound h
  AllSound-get [] i h s e = cc e
  AllSound-get (g ∷ hs) zero h (s, rest) e = let same : g ≡ h = cc e in subst Sound same s
  AllSound-get (g ∷ hs) (suc i) h (s, rest) e = AllSound-get hs i h rest e

  -- What `createWeak`, `incWeak` and `decWeak` do to the counts, where the references exist and
  -- the count has room in its 32 bits.
  pub record IsRefApi : Type 0 where
    pub create :
        (o : Object) (s : S)
        → 0 < api.weak_count (api.refs_of o) s
        → api.weak_count (api.refs_of o) s < 2 ^ 31 - 1
        → (t : S) × (api.create_weak o s ≡ some (api.refs_of o, t))
          × ((q : Refs)
              → api.weak_count q t ≡ api.weak_count q s + (if q == api.refs_of o then 1 else 0))
    pub inc :
        (r : Refs) (s : S)
        → 0 < api.weak_count r s
        → api.weak_count r s < 2 ^ 31 - 1
        → (t : S) × (api.inc_weak r s ≡ some t)
          × ((q : Refs) → api.weak_count q t ≡ api.weak_count q s + (if q == r then 1 else 0))
    pub dec :
        (r : Refs) (s : S)
        → 0 < api.weak_count r s
        → (t : S) × (api.dec_weak r s ≡ some t)
          × ((q : Refs) → api.weak_count q t + (if q == r then 1 else 0) ≡ api.weak_count q s)

module _ {S : Type 0} (api : RefApi S) (laws : IsRefApi api) where
  -- Each object that `p` may point to has a weak reference.
  abbrev pub AtLeastOne : Option Object → S → Type 0
  AtLeastOne p s = (o : Object) → p ≡ some o → 0 < api.weak_count (api.refs_of o) s

  abbrev pub Small : S → Type 0
  Small s = (q : Refs) → api.weak_count q s < 2 ^ 31 - 1

  abbrev pub Gains : Option S → S → Weak → Type 0
  Gains r s h =
      (t : S) × (r ≡ some t)
      × ((q : Refs) → api.weak_count q t ≡ api.weak_count q s + points (some h) q)

  abbrev pub Loses : Option S → S → Weak → Type 0
  Loses r s h =
      (t : S) × (r ≡ some t)
      × ((q : Refs) → api.weak_count q t + points (some h) q ≡ api.weak_count q s)

  pub inc_if-Gains :
      (p : Option Object) (r : RefsPointer) (s : S)
      → Sound api (some (weak p r))
      → AtLeastOne p s
      → Small s
      → Gains (inc_if api (weak p r) s) s (weak p r)
  unfolding inc_if
  inc_if-Gains none r s sound live small = (s, refl, λ q. omega arith)
  inc_if-Gains (some o) r s sound live small =
      let e = sound o refl in
      let (t, returns, count) = laws.inc (api.refs_of o) s (live o refl) (small (api.refs_of o)) in
      rw e (t, returns, count)

  pub dec_if-Loses :
      (p : Option Object) (r : RefsPointer) (s : S)
      → Sound api (some (weak p r))
      → AtLeastOne p s
      → Loses (dec_if api (weak p r) s) s (weak p r)
  unfolding dec_if
  dec_if-Loses none r s sound live = (s, refl, λ q. omega arith)
  dec_if-Loses (some o) r s sound live =
      let e = sound o refl in
      let (t, returns, count) = laws.dec (api.refs_of o) s (live o refl) in rw e (t, returns, count)

  pub new_refs-Gains :
      (p : Option Object) (s : S)
      → AtLeastOne p s
      → Small s
      → (r : RefsPointer) × (t : S) × (new_refs api p s ≡ some (r, t))
        × Sound api (some (weak p r))
        × ((q : Refs) → api.weak_count q t ≡ api.weak_count q s + points_to p r q)
  unfolding new_refs
  new_refs-Gains none s live small = (null, s, refl, (λ o e. cc e), λ q. omega arith)
  new_refs-Gains (some o) s live small =
      let (t, returns, count) = laws.create o s (live o refl) (small (api.refs_of o)) in
      (
        at (api.refs_of o),
        t,
        rw returns,
        (λ o' e. let same : o ≡ o' = cc e in ap (λ x. at (api.refs_of x)) same),
        count,
      )

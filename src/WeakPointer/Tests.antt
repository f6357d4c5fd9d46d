-- ===== src/WeakPointer/Tests.antt =====
-- `wp` of RS485/tl/native_client/jni/utils/RefBase.h over counts that compute.
use mathlib.Core.Path.{subst}
use qf.Prelude.{
  ℕ, ◌+◌, ◌-◌, ◌≡◌, ◌≢◌, refl, arith, true, false, none, some, ◌==◌, if◌then◌else◌, List, [], ◌∷◌,
}
use qf.WeakPointer.{
  Refs, RefApi, unset, at, Weak, weak, World, weak_at, inc_if, dec_if, wp_assign, wp_clear, promote,
}
use qf.WeakPointer.Holders.{holders, IsRefApi}
use qf.WeakPointer.Runs.{Operation, assign_weak, clear_weak, run, run_all, IsCounted, IsProper}
use qf.WeakPointer.Programs.{run_all-IsCounted}
use qf.WeakPointer.Compare.{equals, differs}
use qf.WeakPointer.Order.{wp_clear-differs}

-- The state is the counts; references are deleted when their count is 0.
abbrev Counters : Type 0
Counters = Refs → ℕ

abbrev plus : Refs → Counters → Counters
plus r s q = s q + (if q == r then 1 else 0)

abbrev minus : Refs → Counters → Counters
minus r s q = s q - (if q == r then 1 else 0)

abbrev counters : RefApi Counters
counters = record {
  refs_of = λ o. o;
  create_weak = λ o s. if s o == 0 then none else some (o, plus o s);
  inc_weak = λ r s. if s r == 0 then none else some (plus r s);
  dec_weak = λ r s. if s r == 0 then none else some (minus r s);
  attempt_inc_strong = λ r s. if s r == 0 then none else some (true, plus r s);
  weak_count = λ r s. s r;
}

counters-IsRefApi : IsRefApi counters
counters-IsRefApi = record {
  create = λ o s held small.
      let live : (s o == 0) ≡ false = ground arith in (plus o s, rw live, λ q. refl);
  inc = λ r s held small.
      let live : (s r == 0) ≡ false = ground arith in (plus r s, rw live, λ q. refl);
  dec = λ r s held.
      let live : (s r == 0) ≡ false = ground arith in (minus r s, rw live, λ q. ground arith);
}

-- Object 5 has two weak pointers, and one reference of others.
abbrev others : Refs → ℕ
others q = if q == 5 then 1 else 0

abbrev weak_five : Weak
weak_five = weak (some 5) (at 5)

abbrev start : World Counters
start = record {
  state = λ q. if q == 5 then 3 else 0;
  handles = some weak_five ∷ some weak_five ∷ [];
}

start-IsCounted : IsCounted counters others start
unfolding holders
start-IsCounted = record {
  count = λ q. ground arith;
  sound = (
    (λ o e. let same : 5 ≡ o = cc e in rw same refl),
    ((λ o e. let same : 5 ≡ o = cc e in rw same refl), tt),
  );
}

abbrev reassigned : World Counters
reassigned = record {
  state = minus 5 (plus 5 start.state);
  handles = some weak_five ∷ some weak_five ∷ [];
}

next :
    (op : Operation) (ops : List Operation) (w c : World Counters)
    → run counters op w ≡ some c
    → IsProper counters others ops c
    → (w' : World Counters) → run counters op w ≡ some w'
    → IsProper counters others ops w'
next op ops w c e proper w' e' =
    let same : c ≡ w' = cc (e, e') in subst (IsProper counters others ops) same proper

reassigned-run : run counters (assign_weak 0 0) start ≡ some reassigned
unfolding run wp_assign weak_at inc_if dec_if
reassigned-run = refl

program-IsProper : IsProper counters others (assign_weak 0 0 ∷ clear_weak 1 ∷ []) start
unfolding weak_at
program-IsProper = (
  ((weak_five, refl), (weak_five, refl)),
  (λ q. ground arith),
  next (assign_weak 0 0) (clear_weak 1 ∷ []) start reassigned reassigned-run
      ((weak_five, refl), (λ q. ground arith), λ w' e. tt),
)

run_all-IsCounted_example :
    (w' : World Counters) × (run_all counters (assign_weak 0 0 ∷ clear_weak 1 ∷ []) start ≡ some w')
    × IsCounted counters others w'
run_all-IsCounted_example =
    run_all-IsCounted counters counters-IsRefApi others (assign_weak 0 0 ∷ clear_weak 1 ∷ []) start
      start-IsCounted program-IsProper

ne_one : ◌≢◌ {A = ℕ} 0 1
ne_one e = absurd (omega arith)

wp_clear-differs_example :
    (w' : World Counters) × (a : Weak) × (b : Weak) × (wp_clear counters 0 start ≡ some w')
    × (weak_at 0 w' ≡ some a)
    × (weak_at 1 w' ≡ some b)
    × (equals a b ≡ some false)
    × (differs a b ≡ some false)
unfolding weak_at
wp_clear-differs_example =
    wp_clear-differs counters start (minus 5 start.state) 0 1 5 5 refl refl ne_one refl

-- Two weak pointers from the default constructor compare what no constructor has set.
default_run : equals (weak none unset) (weak none unset) ≡ none
unfolding equals
default_run = refl

promote_run : promote counters 0 start ≡ some (some 5, record start { state = plus 5 start.state })
unfolding promote weak_at
promote_run = refl

-- ===== src/StrongPointer/Tests.antt =====
-- Handles at work on concrete objects.
use mathlib.Core.Path.{subst}
use qf.Prelude.{
  ◌≡◌, refl, arith, List, [], ◌∷◌, none, some, true, false, ◌==◌, if◌then◌else◌, set, Bool-cases,
  inl, inr, ==_iff,
}
use qf.StrongPointer.{holds, gone, World, update, ◌>>=◌, pointer_of, sp_assign}
use qf.StrongPointer.Compare.{sp_less, sp_null, sp_dereference, set_pointer, force_set}
use qf.StrongPointer.Refs.{refs, IsCounted}
use qf.StrongPointer.Sharing.{Leaves, sp_assign-Leaves}
use qf.StrongPointer.Runs
use qf.StrongPointer.Runs.{Operation, of_new, IsProper, Counts, run, run_all, run_all-Counts}

abbrev no_objects : World
no_objects = record { counts = λ q. none; handles = [] }

-- Two handles for object 5, and a null one.
abbrev shared : World
shared = record {
  counts = λ q. if q == 5 then some 2 else none;
  handles = holds (some 5) ∷ holds (some 5) ∷ holds none ∷ [];
}

shared-IsCounted : IsCounted shared
unfolding refs
shared-IsCounted q = elim (Bool-cases (q == 5)) [
  | inl same ↦ let e : q ≡ 5 = (==_iff q 5).0 same in rw e refl
  | inr apart ↦ let other : (5 == q) ≡ false = ground arith in rw (apart, other) refl
]

no_objects-IsCounted : IsCounted no_objects
unfolding refs
no_objects-IsCounted q = refl

sp_assign-Leaves_example : Leaves (sp_assign 0 0 shared) (set shared.handles 0 (holds (some 5)))
unfolding pointer_of
sp_assign-Leaves_example =
    sp_assign-Leaves shared shared-IsCounted 0 0 (some 5) (some 5) refl refl (omega arith)

next :
    (op : Operation) (ops : List Operation) (w c : World)
    → run op w ≡ some c
    → IsProper ops c
    → (w' : World) → run op w ≡ some w'
    → IsProper ops w'
next op ops w c e proper w' e' = let same : c ≡ w' = cc (e, e') in subst (IsProper ops) same proper

abbrev third : List Operation
third = Runs.clear 1 ∷ []

abbrev second : List Operation
second = Runs.destroy 0 ∷ third

abbrev first : List Operation
first = Runs.copy 0 ∷ second

abbrev program : List Operation
program = of_new 5 ∷ first

abbrev alone : World
alone = record {
  counts = update 5 (some 1) (update 5 (some 0) no_objects.counts);
  handles = holds (some 5) ∷ [];
}

abbrev two : World
two = record {
  counts = update 5 (some 2) alone.counts;
  handles = holds (some 5) ∷ holds (some 5) ∷ [];
}

abbrev one_left : World
one_left = record { counts = update 5 (some 1) two.counts; handles = gone ∷ holds (some 5) ∷ [] }

program-IsProper : IsProper program no_objects
unfolding refs run pointer_of
program-IsProper = (
  refl,
  omega arith,
  next (of_new 5) first no_objects alone refl (
    (some 5, refl),
    omega arith,
    next (Runs.copy 0) second alone two refl (
      (some 5, refl),
      omega arith,
      next (Runs.destroy 0) third two one_left refl ((some 5, refl), omega arith, λ w e. tt),
    ),
  ),
)

run_all-Counts_example : Counts (run_all program no_objects)
run_all-Counts_example = run_all-Counts program no_objects no_objects-IsCounted program-IsProper

program_frees : (run_all program no_objects >>= λ w. some (w.counts 5)) ≡ some none
unfolding run_all
program_frees = refl

null_run : (sp_null shared >>= sp_dereference 3) ≡ none
unfolding sp_null sp_dereference
null_run = refl

set_run : (set_pointer 2 (some 5) shared >>= sp_dereference 2) ≡ some 5
unfolding set_pointer sp_dereference
set_run = refl

-- The old object of the handle keeps the count that it had.
force_run :
    (force_set (λ o w. some (record w { counts = update o (some 1) w.counts })) 1 6 shared >>= λ w.
    w.counts 5)
    ≡ some 2
unfolding force_set
force_run = refl

compare_run : sp_less none (some 0) ≡ true
unfolding sp_less
compare_run = refl

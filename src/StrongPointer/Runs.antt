-- ===== src/StrongPointer/Runs.antt =====
-- Sequences of operations on the handles of a program.
use qf.Prelude.{ℕ, ◌≡◌, refl, List, [], ◌∷◌, Option, none, some}
use qf.StrongPointer.{
  ◌>>=◌, Object, Handle, World, pointer_of, sp_of_pointer, sp_copy, sp_destroy, sp_assign_pointer,
  sp_assign, sp_clear, sp_of_new,
}
use qf.StrongPointer.Refs.{refs, IsCounted}
use qf.StrongPointer.Sharing.{
  Leaves, HasRoom, IsLive-of_held, sp_of_pointer-Leaves, sp_copy-Leaves, sp_destroy-Leaves,
  sp_assign_pointer-Leaves, sp_assign-Leaves, sp_clear-Leaves, sp_of_new-Leaves,
}

-- `of_get` and `assign_get` take the raw pointer that `get` returns for a handle.
pub data Operation : Type 0 where
  null : Operation
  of_new : Object → Operation
  of_get : ℕ → Operation
  copy : ℕ → Operation
  destroy : ℕ → Operation
  assign : ℕ → ℕ → Operation
  assign_get : ℕ → ℕ → Operation
  clear : ℕ → Operation

unfoldable pub run : Operation → World → Option World
unfolding pointer_of sp_of_pointer sp_copy sp_destroy sp_assign sp_assign_pointer sp_clear sp_of_new
run null w = sp_of_pointer none w
run (of_new o) w = sp_of_new o w
run (of_get j) w = do p ← pointer_of j w; sp_of_pointer p w
run (copy j) w = sp_copy j w
run (destroy i) w = sp_destroy i w
run (assign i j) w = sp_assign i j w
run (assign_get i j) w = do p ← pointer_of j w; sp_assign_pointer i p w
run (clear i) w = sp_clear i w

unfoldable pub run_all : List Operation → World → Option World
unfolding run
run_all [] w = some w
run_all (op ∷ ops) w = do w' ← run op w; run_all ops w'

-- Handle `i` exists.
abbrev pub IsHandle : ℕ → World → Type 0
IsHandle i w = (p : Option Object) × (pointer_of i w ≡ some p)

-- The handles that an operation names exist, and a new object is not where another one is.
abbrev pub Names : Operation → World → Type 0
Names null w = Unit {0}
Names (of_new o) w = refs o w.handles ≡ 0
Names (of_get j) w = IsHandle j w
Names (copy j) w = IsHandle j w
Names (destroy i) w = IsHandle i w
Names (assign i j) w = IsHandle i w × IsHandle j w
Names (assign_get i j) w = IsHandle i w × IsHandle j w
Names (clear i) w = IsHandle i w

-- A program that uses a handle only while it exists.
abbrev pub IsProper : List Operation → World → Type 0
IsProper [] w = Unit {0}
IsProper (op ∷ ops) w =
    Names op w × HasRoom w × ((w' : World) → run op w ≡ some w' → IsProper ops w')

abbrev pub Counts : Option World → Type 0
Counts r = (w : World) × (r ≡ some w) × IsCounted w

forget : {r : Option World} {hs : List Handle} → Leaves r hs → Counts r
forget (w, returns, handles, counted) = (w, returns, counted)

run-Counts : (op : Operation) (w : World) → IsCounted w → Names op w → HasRoom w → Counts (run op w)
unfolding run
run-Counts null w e names room = forget (sp_of_pointer-Leaves w e none (λ o eq. cc eq) room)
run-Counts (of_new o) w e names room = forget (sp_of_new-Leaves w e o names)
run-Counts (of_get j) w e (p, at) room =
    rw at (forget (sp_of_pointer-Leaves w e p (IsLive-of_held w e j p at) room))
run-Counts (copy j) w e (p, at) room = forget (sp_copy-Leaves w e j p at room)
run-Counts (destroy i) w e (p, at) room = forget (sp_destroy-Leaves w e i p at room)
run-Counts (assign i j) w e ((p, at), (q, from)) room =
    forget (sp_assign-Leaves w e i j p q at from room)
run-Counts (assign_get i j) w e ((p, at), (q, from)) room =
    rw from (forget (sp_assign_pointer-Leaves w e i p q at (IsLive-of_held w e j q from) room))
run-Counts (clear i) w e (p, at) room = forget (sp_clear-Leaves w e i p at room)

-- A program that starts with right counts, uses a handle only while it exists, makes an object only
-- where there is none, and has fewer than 2 ^ 32 - 1 handles, never uses a freed object, and at its end an object exists exactly while a handle refers to it, with
-- the number of its handles as its count.
pub run_all-Counts :
    (ops : List Operation) (w : World) → IsCounted w → IsProper ops w → Counts (run_all ops w)
unfolding run_all
run_all-Counts [] w e proper = (w, refl, e)
run_all-Counts (op ∷ ops) w e (names, room, rest) =
    let (w', returns, e') = run-Counts op w e names room in
    rw returns (run_all-Counts ops w' e' (rest w' returns))

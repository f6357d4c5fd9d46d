-- ===== src/WeakPointer/Runs.antt =====
-- Sequences of operations of `wp` of RS485/tl/native_client/jni/utils/RefBase.h.
use qf.Prelude.{ℕ, ◌+◌, ◌-◌, ◌<◌, ◌^◌, ◌≡◌, List, [], ◌∷◌, Option, none, some, length, get_elem?}
use qf.StrongPointer.{◌>>=◌, Object}
use qf.WeakPointer.{
  Refs, RefApi, RefsPointer, Weak, weak, World, weak_at, wp_default, wp_of_pointer, wp_copy,
  wp_copy_derived, wp_destroy, wp_assign_pointer, wp_assign, set_object_and_refs, wp_clear,
}
use qf.WeakPointer.Holders.{holders, Sound, AllSound}

pub data Operation : Type 0 where
  default_weak : Operation
  of_pointer : Option Object → Operation
  copy_weak : ℕ → Operation
  copy_derived : ℕ → Operation
  destroy_weak : ℕ → Operation
  assign_pointer : ℕ → Option Object → Operation
  assign_weak : ℕ → ℕ → Operation
  set_object : ℕ → Option Object → RefsPointer → Operation
  clear_weak : ℕ → Operation

held : (h : Option (Option Weak)) (p : Weak) → (h >>= λ k. k) ≡ some p → h ≡ some (some p)
held none p e = cc e
held (some h) p e = cc e

pub weak_at-get :
    {S : Type 0} (i : ℕ) (w : World S) (h : Weak)
    → weak_at i w ≡ some h
    → get_elem? w.handles i ≡ some (some h)
unfolding weak_at
weak_at-get i w h e = held (get_elem? w.handles i) h e

module _ {S : Type 0} (api : RefApi S) where
  unfoldable pub run : Operation → World S → Option (World S)
  unfolding wp_default wp_of_pointer wp_copy wp_copy_derived wp_destroy wp_assign_pointer wp_assign
      set_object_and_refs wp_clear
  run default_weak w = wp_default w
  run (of_pointer p) w = wp_of_pointer api p w
  run (copy_weak j) w = wp_copy api j w
  run (copy_derived j) w = wp_copy_derived api j w
  run (destroy_weak i) w = wp_destroy api i w
  run (assign_pointer i p) w = wp_assign_pointer api i p w
  run (assign_weak i j) w = wp_assign api i j w
  run (set_object i p r) w = set_object_and_refs api i p r w
  run (clear_weak i) w = wp_clear api i w

  unfoldable pub run_all : List Operation → World S → Option (World S)
  unfolding run
  run_all [] w = some w
  run_all (op ∷ ops) w = do w' ← run op w; run_all ops w'

module _ {S : Type 0} (api : RefApi S) (others : Refs → ℕ) where
  -- The weak count of each object is the number of its handles and of the references that `others`
  -- hold, and each handle has the references of its object.
  pub record IsCounted (w : World S) : Type 0 where
    pub count : (q : Refs) → api.weak_count q w.state ≡ others q + holders q w.handles
    pub sound : AllSound api w.handles

  abbrev pub Counts : Option (World S) → Type 0
  Counts r = (w : World S) × (r ≡ some w) × IsCounted w

  abbrev pub IsHandle : ℕ → World S → Type 0
  IsHandle i w = (h : Weak) × (weak_at i w ≡ some h)

  -- An object that others refer to, or the null pointer.
  abbrev pub IsKept : Option Object → Type 0
  IsKept p = (o : Object) → p ≡ some o → 0 < others (api.refs_of o)

  -- The handles that an operation names exist, and others refer to the objects that it names.
  abbrev pub Names : Operation → World S → Type 0
  Names default_weak w = Unit {0}
  Names (of_pointer p) w = IsKept p
  Names (copy_weak j) w = IsHandle j w
  Names (copy_derived j) w = IsHandle j w
  Names (destroy_weak i) w = IsHandle i w
  Names (assign_pointer i p) w = IsHandle i w × IsKept p
  Names (assign_weak i j) w = IsHandle i w × IsHandle j w
  Names (set_object i p r) w = IsHandle i w × IsKept p × Sound api (some (weak p r))
  Names (clear_weak i) w = IsHandle i w

  abbrev pub HasRoom : World S → Type 0
  HasRoom w = (q : Refs) → others q + length w.handles < 2 ^ 31 - 1

  abbrev pub IsProper : List Operation → World S → Type 0
  IsProper [] w = Unit {0}
  IsProper (op ∷ ops) w =
      Names op w × HasRoom w × ((w' : World S) → run api op w ≡ some w' → IsProper ops w')

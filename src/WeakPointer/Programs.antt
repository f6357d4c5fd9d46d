-- ===== src/WeakPointer/Programs.antt =====
-- Programs over `wp` of RS485/tl/native_client/jni/utils/RefBase.h.
use qf.Prelude.{ℕ, ◌≡◌, refl, arith, List, [], ◌∷◌, none, some}
use qf.WeakPointer.{Refs, RefApi, unset, weak, World, wp_default}
use qf.WeakPointer.Holders.{IsRefApi}
use qf.WeakPointer.Runs.{
  Operation, default_weak, of_pointer, copy_weak, copy_derived, destroy_weak, assign_pointer,
  assign_weak, set_object, clear_weak, run, run_all, IsCounted, Counts, Names, HasRoom, IsProper,
}
use qf.WeakPointer.Counted.{
  added-IsCounted, wp_of_pointer-Counts, wp_copy-Counts, wp_copy_derived-Counts, wp_destroy-Counts,
  wp_assign_pointer-Counts, wp_assign-Counts, set_object_and_refs-Counts, wp_clear-Counts,
}

module _ {S : Type 0} (api : RefApi S) (laws : IsRefApi api) (others : Refs → ℕ) where
  run-Counts :
      (op : Operation) (w : World S)
      → IsCounted api others w
      → Names api others op w
      → HasRoom api others w
      → Counts api others (run api op w)
  unfolding run wp_default
  run-Counts default_weak w c names room = (
    _,
    refl,
    added-IsCounted api laws others w c (weak none unset) w.state (λ o e. cc e) (λ q. omega arith),
  )
  run-Counts (of_pointer p) w c kept room = wp_of_pointer-Counts api laws others w c p kept room
  run-Counts (copy_weak j) w c (h, here) room = wp_copy-Counts api laws others w c j h here room
  run-Counts (copy_derived j) w c (h, here) room =
      wp_copy_derived-Counts api laws others w c j h.m_ptr h.m_refs here room
  run-Counts (destroy_weak i) w c (h, here) room = wp_destroy-Counts api laws others w c i h here
  run-Counts (assign_pointer i p) w c ((h, here), kept) room =
      wp_assign_pointer-Counts api laws others w c i h p here kept room
  run-Counts (assign_weak i j) w c ((h, here), (k, from)) room =
      wp_assign-Counts api laws others w c i j h k here from room
  run-Counts (set_object i p r) w c ((h, here), kept, sound) room =
      set_object_and_refs-Counts api laws others w c i h p r here kept sound room
  run-Counts (clear_weak i) w c (h, here) room =
      wp_clear-Counts api laws others w c i h.m_ptr h.m_refs here

  -- A program that starts with right counts, names a handle only while it exists, names an object
  -- only when references of others keep it, and before each operation has, for each object, fewer
  -- than 2 ^ 31 - 1 references of others to it and handles of the program together (all handles,
  -- those to other objects and those that are destroyed included), makes no call on references that
  -- are deleted or not set; at its end the weak count of each object is the number of its handles
  -- and of the references of others.
  pub run_all-IsCounted :
      (ops : List Operation) (w : World S)
      → IsCounted api others w
      → IsProper api others ops w
      → (w' : World S) × (run_all api ops w ≡ some w') × IsCounted api others w'
  unfolding run_all
  run_all-IsCounted [] w c proper = (w, refl, c)
  run_all-IsCounted (op ∷ ops) w c (names, room, rest) =
      let (w', returns, c') = run-Counts op w c names room in
      rw returns (run_all-IsCounted ops w' c' (rest w' returns))

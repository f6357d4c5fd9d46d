-- ===== src/LruCache/Bounds.antt =====
-- How many pairs a cache of RS485/tl/native_client/jni/utils/LruCache.h holds.
use qf.Prelude.{ℕ, ◌+◌, ◌≤◌, ◌<◌, ◌≡◌, refl, ◌∙◌, arith, List, [], ◌∷◌, Option, Bool, true, length}
use qf.LruCache.{Address, TableApi, Cache, ok}
use qf.LruCache.Operations.{new_cache, size}
use qf.LruCache.Table.{IsTableApi}
use qf.LruCache.Room.{IsWithin}
use qf.LruCache.Model.{Call, run_calls, stays_small, Model, new_model, model_call, Answer}
use qf.LruCache.Refinement.{
  Refines, run_call-model_call, stays_small-first, stays_small-step, new_cache-Refines,
}
use qf.LruCache.Within.{model_call-IsWithin}

module _ {S K V : Type 0} (api : TableApi S K) (eqb : K → K → Bool) (place : K → S → Option Address)
    (room : S → ℕ) (laws : IsTableApi api eqb place room) where
  size-run_calls' :
      (calls : List (Call K V)) (fuel : ℕ) (c : Cache S K V) (nodes : List Address) (m : Model K V)
      → Refines api eqb place room laws c nodes m
      → IsWithin m.max_capacity (length m.pairs)
      → length m.pairs + length calls + 1 < fuel
      → stays_small api fuel calls c ≡ true
      → (d : Cache S K V) × (answers : List (Answer V)) × (run_calls api fuel calls c
          ≡ ok answers d)
        × IsWithin m.max_capacity (size api d)
        × (d.max_capacity ≡ m.max_capacity)
  unfolding run_calls
  size-run_calls' [] fuel c nodes m h within enough small =
      (c, [], refl, rw h.keeps.sized within, h.max_capacity)
  size-run_calls' (call ∷ calls) fuel c nodes m h within enough small =
      let (d, mid, runs, h') =
        run_call-model_call api eqb place room laws call fuel c nodes m h within
          (omega (arith, enough))
          (stays_small-first api eqb place room laws call calls fuel c small) in
      let (first, rest) =
        stays_small-step api eqb place room laws call calls fuel c d _ runs small in
      let (within', same, more) = model_call-IsWithin eqb call m within in
      let (e, answers, runs', bound, kept) =
        size-run_calls' calls fuel d mid (model_call eqb call m).1 h' (rw same within')
          (omega (arith, enough, more)) rest in
      (
        e,
        (model_call eqb call m).0 ∷ answers,
        rw runs (rw runs' refl),
        rw same at bound,
        kept ∙ same,
      )

  -- Every sequence of calls on a new cache of a maximal capacity above 0, before each of which the
  -- capacity of the table is below 2 ^ 30, ends without a fault, with at most that many pairs. The fuel of each call is enough if it is above the number of calls and one.
  pub size-run_calls :
      (calls : List (Call K V)) (fuel max_capacity : ℕ) (null_value : V)
      → length calls + 1 < fuel
      → stays_small api fuel calls (new_cache api max_capacity null_value) ≡ true
      → 0 < max_capacity
      → (d : Cache S K V) × (answers : List (Answer V)) × (run_calls api fuel calls
            (new_cache api max_capacity null_value)
          ≡ ok answers d)
        × (size api d ≤ max_capacity)
  unfolding new_cache
  size-run_calls calls fuel max_capacity null_value enough small positive =
      let (d, answers, runs, bound, kept) =
        size-run_calls' calls fuel (new_cache api max_capacity null_value) []
          (new_model max_capacity null_value)
          (new_cache-Refines api eqb place room laws max_capacity null_value) (ground arith)
          (omega (arith, enough)) small in
      (d, answers, runs, ground (arith, bound, positive))

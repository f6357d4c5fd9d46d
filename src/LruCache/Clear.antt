-- ===== src/LruCache/Clear.antt =====
-- The constructor and `clear` of RS485/tl/native_client/jni/utils/LruCache.h on a sequence of pairs.
use mathlib.Core.List.{append-nil, append_assoc}
use qf.Prelude.{
  ℕ, zero, suc, ◌<◌, ◌≡◌, refl, sym, ap, ◌∙◌, arith, List, [], ◌∷◌, ◌++◌, Option, none, some, Bool,
  true, false, if◌then◌else◌, length,
}
use qf.LruCache.{
  Address, TableApi, Cache, ok, and_then, ◌>>◌, load, notify, set_oldest, set_youngest,
}
use qf.LruCache.Operations.{new_cache, clear, notify_from, notify_all, clear_table, destroyed}
use qf.LruCache.Chain.{head_of, Chain}
use qf.LruCache.Table.{IsTableApi}
use qf.LruCache.Contents.{Kept, Keeps}

module _ {S K V : Type 0} (api : TableApi S K) where
  abbrev pub told_of : List (K × V) → Cache S K V → Cache S K V
  told_of l c = record c { removed = c.removed ++ l }

  notify-told_of :
      (k : K) (v : V) (c : Cache S K V)
      → c.listener ≡ true
      → notify k v c ≡ ok tt (told_of ((k, v) ∷ []) c)
  notify-told_of k v c on =
      ap (λ b. ok tt (record c { removed = if b then c.removed ++ (k, v) ∷ [] else c.removed })) on

  -- The loop of `clear` tells the listener of the pairs, in their order.
  notify_from-told_of :
      (fuel : ℕ) (c : Cache S K V) (before : Option Address) (ps : List Address) (l : List (K × V))
      → length l < fuel
      → c.listener ≡ true
      → Chain c.entries before ps l none
      → notify_from api fuel (head_of ps none) c ≡ ok tt (told_of l c)
  unfolding load
  notify_from-told_of zero c before ps l enough on chain = absurd (omega (arith, enough))
  notify_from-told_of (suc fuel) c before [] [] enough on chain = rw (append-nil c.removed) refl
  notify_from-told_of (suc fuel) c before [] (x ∷ l) enough on chain = absurd chain
  notify_from-told_of (suc fuel) c before (p ∷ ps) [] enough on chain = absurd chain
  notify_from-told_of (suc fuel) c before (p ∷ ps) (x ∷ l) enough on (at, chain) = rw at (
      ap (λ r. and_then r (λ _. notify_from api fuel (head_of ps none)))
        (notify-told_of x.0 x.1 c on)
      ∙ notify_from-told_of fuel (told_of (x ∷ []) c) (some p) ps l (omega (arith, enough)) on chain
      ∙ ap (λ r. ok tt (record c { removed = r })) (append_assoc c.removed (x ∷ []) l))

  notify_all-told_of :
      (b : Bool) (fuel : ℕ) (c : Cache S K V) (ps : List Address) (l : List (K × V))
      → length l < fuel
      → c.listener ≡ b
      → c.oldest ≡ head_of ps none
      → Chain c.entries none ps l none
      → notify_all api fuel b c ≡ ok tt (told_of (if b then l else []) c)
  notify_all-told_of false fuel c ps l enough on first chain =
      ap (λ r. ok tt (record c { removed = r })) (sym (append-nil c.removed))
  notify_all-told_of true fuel c ps l enough on first chain =
      ap (λ o. notify_from api fuel o c) first
      ∙ notify_from-told_of fuel c none ps l enough on chain

module _ {S K V : Type 0} (api : TableApi S K) (eqb : K → K → Bool) (place : K → S → Option Address)
    (room : S → ℕ) (laws : IsTableApi api eqb place room) where
  pub new_cache-Keeps :
      (max_capacity : ℕ) (null_value : V)
      → Keeps api eqb place room laws (new_cache api max_capacity null_value) [] []
  unfolding new_cache
  new_cache-Keeps max_capacity null_value = record {
    ordered = record { chain = tt; distinct = tt; first = refl; last = refl };
    keys = tt;
    placed = laws.starts.0;
    table = laws.starts.2;
    sized = laws.starts.1;
  }

  -- `clear` leaves no pair, and tells the listener of all of them, the one whose use is longest ago
  -- first. Its fuel is enough if it is above the number of pairs.
  pub clear-Keeps :
      (c : Cache S K V) (nodes : List Address) (l : List (K × V)) (fuel : ℕ)
      → Keeps api eqb place room laws c nodes l
      → length l < fuel
      → (d : Cache S K V) × (clear api fuel c ≡ ok tt d)
        × Keeps api eqb place room laws d [] []
        × Kept c d l
  unfolding clear
  clear-Keeps c nodes l fuel keeps enough =
      let (empty, size0, sound) = laws.clears c.table keeps.table in
      (
        record (told_of api (if c.listener then l else []) c) {
          table = api.clear c.table;
          entries = destroyed api c.table c.entries;
          oldest = none;
          youngest = none;
        },
        ap (λ r. and_then r (λ _. set_youngest none >> (set_oldest none >> clear_table api)))
            (notify_all-told_of api c.listener fuel c nodes l enough refl keeps.ordered.first
              keeps.ordered.chain),
        record {
          ordered = record { chain = tt; distinct = tt; first = refl; last = refl };
          keys = tt;
          placed = empty;
          sized = size0;
          table = sound;
        },
        record { listener = refl; removed = refl; max_capacity = refl; null_value = refl },
      )

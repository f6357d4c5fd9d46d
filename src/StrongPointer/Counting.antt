-- ===== src/StrongPointer/Counting.antt =====
-- What the operations of `sp` do to the counts and the handles.
use qf.Prelude.{
  ℕ, zero, suc, ◌+◌, ◌-◌, ◌<◌, ◌≤◌, ◌^◌, ◌%◌, ◌≡◌, ◌≢◌, refl, sym, arith, true, Option, none, some,
  ◌==◌, if◌then◌else◌, ap, ◌∙◌, Bool-cases, inl, inr, ==_iff,
}
use qf.StrongPointer.{Object, holds, World, update, inc_strong, dec_strong, acquire, release}
use qf.StrongPointer.Refs.{points, exact, Exact}

pub exact_of_pos : (n : ℕ) → 1 ≤ n → exact n ≡ some n
exact_of_pos zero h = absurd (omega arith)
exact_of_pos (suc n) h = refl

pub exact_of_zero : (n : ℕ) → n ≡ 0 → exact n ≡ none
exact_of_zero zero h = refl
exact_of_zero (suc n) h = absurd (omega arith)

pub Exact-congr :
    {c : Object → Option ℕ} {f g : Object → ℕ} → Exact c f → ((q : Object) → f q ≡ g q) → Exact c g
Exact-congr e same q = e q ∙ ap exact (same q)

-- One count is changed.
pub update-Exact :
    (o : Object) (n : Option ℕ) (c : Object → Option ℕ) (f g : Object → ℕ)
    → Exact c f
    → n ≡ exact (g o)
    → ((q : Object) → q ≢ o → f q ≡ g q)
    → Exact (update o n c) g
update-Exact o n c f g e here other q = elim (Bool-cases (q == o)) [
  | inl same ↦ rw same (here ∙ ap (λ k. exact (g k)) (sym ((==_iff q o).0 same)))
  | inr apart ↦ rw apart (e q ∙ ap exact (other q (ground arith)))
]

-- The counts of a world are replaced.
abbrev pub with_counts : World → (Object → Option ℕ) → World
with_counts w c = record w { counts = c }

module _ (w : World) (f : Object → ℕ) (e : Exact w.counts f) (o : Object) where
  pub inc_strong-Exact :
      1 ≤ f o
      → f o + 1 < 2 ^ 32
      → (c : Object → Option ℕ) × (inc_strong o w ≡ some (with_counts w c))
        × Exact c (λ q. f q + points (holds (some o)) q)
  unfolding inc_strong
  inc_strong-Exact live small =
      let count : w.counts o ≡ some (f o) = e o ∙ exact_of_pos (f o) live in
      (
        update o (some ((f o + 1) % 2 ^ 32)) w.counts,
        rw count,
        update-Exact o (some ((f o + 1) % 2 ^ 32)) w.counts f _ e
            (let same : (o == o) ≡ true = ground arith in
              let sum : (f o + 1) % 2 ^ 32 ≡ f o + 1 = omega arith in
              rw (same, sum) (sym (exact_of_pos (f o + 1) (omega arith))))
            (λ q apart. ground arith),
      )

  pub dec_strong-Exact :
      1 ≤ f o
      → f o < 2 ^ 32
      → (c : Object → Option ℕ) × (dec_strong o w ≡ some (with_counts w c))
        × Exact c (λ q. f q - points (holds (some o)) q)
  unfolding dec_strong
  dec_strong-Exact live small =
      let count : w.counts o ≡ some (f o) = e o ∙ exact_of_pos (f o) live in
      let same : (o == o) ≡ true = ground arith in
      let rest = if f o == 1 then none else some ((f o + (2 ^ 32 - 1)) % 2 ^ 32) in
      (
        update o rest w.counts,
        rw count,
        update-Exact o rest w.counts f _ e
            (elim (Bool-cases (f o == 1)) [
              | inl last ↦ rw (same, last) (sym (exact_of_zero (f o - 1) (ground arith)))
              | inr more ↦
                  let sum : (f o + (2 ^ 32 - 1)) % 2 ^ 32 ≡ f o - 1 = ground arith in
                  rw (same, more, sum) (sym (exact_of_pos (f o - 1) (ground arith)))
            ])
            (λ q apart. ground arith),
      )

-- Every object that `p` may point to has `k` handles at least.
abbrev pub AtLeast : ℕ → (Object → ℕ) → Option Object → Type 0
AtLeast k f p = (o : Object) → p ≡ some o → k ≤ f o

abbrev Below : ℕ → (Object → ℕ) → Type 0
Below n f = (o : Object) → f o < n

module _ (w : World) (f : Object → ℕ) (e : Exact w.counts f) where
  pub acquire-Exact :
      (p : Option Object)
      → AtLeast 1 f p
      → Below (2 ^ 32 - 1) f
      → (c : Object → Option ℕ) × (acquire p w ≡ some (with_counts w c))
        × Exact c (λ q. f q + points (holds p) q)
  unfolding acquire
  acquire-Exact none live small = (w.counts, refl, Exact-congr e (λ q. omega arith))
  acquire-Exact (some o) live small =
      inc_strong-Exact w f e o (live o refl) (omega (arith, small o))

  pub release-Exact :
      (p : Option Object)
      → AtLeast 1 f p
      → Below (2 ^ 32) f
      → (c : Object → Option ℕ) × (release p w ≡ some (with_counts w c))
        × Exact c (λ q. f q - points (holds p) q)
  unfolding release
  release-Exact none live small = (w.counts, refl, Exact-congr e (λ q. omega arith))
  release-Exact (some o) live small = dec_strong-Exact w f e o (live o refl) (small o)

-- ===== src/Base/Table.antt =====
-- Tables with a numbered entry for each task or shard: a change of one entry, and sums of the first ones.
use Prim.Native.Nat.{ℕ, zero, suc, ◌+◌, ◌≤◌, ◌<◌}
use mathlib.Core.Bool.{true, false}
use mathlib.Core.Logic.{◌≢◌, inl, inr}
use mathlib.Core.Path.{◌≡◌, refl, sym, ap, subst}
use native.Mathlib.Omega.{arith}
use navar.Base.Tests.{◌==◌, if◌then◌else◌, ==_iff, Bool-cases}

pub ==-refl : (i : ℕ) → (i == i) ≡ true
==-refl i = (==_iff i i).1 refl

pub ==-ne : (j i : ℕ) → j ≢ i → (j == i) ≡ false
==-ne j i ne = elim (Bool-cases (j == i)) [ inl e ↦ absurd (ne ((==_iff j i).0 e)) | inr e ↦ e ]

module _ {ℓ} {A : Type ℓ} where
  abbrev pub put : (ℕ → A) → ℕ → A → ℕ → A
  put f i a j = if j == i then a else f j

  pub put_self : (f : ℕ → A) (i : ℕ) (a : A) → put f i a i ≡ a
  put_self f i a = rw (==-refl i)

  pub put-other : (f : ℕ → A) (i j : ℕ) (a : A) → j ≢ i → put f i a j ≡ f j
  put-other f i j a ne = rw (==-ne j i ne)

  -- What holds of the new entry and of the others holds of all.
  pub put-All {κ} :
      (P : ℕ → A → Type κ) (f : ℕ → A) (i : ℕ) (a : A)
      → P i a
      → ((j : ℕ) → j ≢ i → P j (f j))
      → (j : ℕ) → P j (put f i a j)
  put-All P f i a here there j = elim (Bool-cases (j == i)) [
    | inl e ↦ rw e (subst (λ x. P x a) (sym ((==_iff j i).0 e)) here)
    | inr e ↦ rw e (there j (λ same. let t = (==_iff j i).1 same in cc))
  ]

  module _ (w : A → ℕ) where
    unfoldable pub sum_of : ℕ → (ℕ → A) → ℕ
    sum_of zero f = 0
    sum_of (suc n) f = w (f n) + sum_of n f

    sum_of-put_past :
        (n : ℕ) (f : ℕ → A) (i : ℕ) (a : A) → n ≤ i → sum_of n (put f i a) ≡ sum_of n f
    unfolding sum_of
    sum_of-put_past zero f i a h = refl
    sum_of-put_past (suc n) f i a h =
        rw (put-other f i n a (omega arith), sum_of-put_past n f i a (omega arith))

    -- The entry's part is exchanged.
    pub sum_of-put :
        (n : ℕ) (f : ℕ → A) (i : ℕ) (a : A)
        → i < n
        → sum_of n (put f i a) + w (f i) ≡ sum_of n f + w a
    unfolding sum_of
    sum_of-put zero f i a h = absurd (omega arith)
    sum_of-put (suc n) f i a h = elim (Bool-cases (n == i)) [
      | inl e ↦
          let same = (==_iff n i).0 e in
          rw e (omega (arith, sum_of-put_past n f i a (omega arith), ap (λ x. w (f x)) same))
      | inr e ↦
          let ne : n ≢ i = λ same. (let t = (==_iff n i).1 same in cc) in
          rw e (let rest = sum_of-put n f i a (omega arith) in omega (arith, rest))
    ]

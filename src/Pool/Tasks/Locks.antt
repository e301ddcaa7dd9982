-- ===== src/Pool/Tasks/Locks.antt =====
-- The lock table and the tasks agree on who holds what, when one task takes a lock or gives it back.
use native.Mathlib.Decide.{ℕ_discrete}
use navar.Base.{ℕ, ◌≡◌, ◌≢◌, sym, ap, ◌∙◌, Option, none, some, put, put_self, put-other}

some_inj : {A : Type 0} {a b : A} → some a ≡ some b → a ≡ b
some_inj h = cc

not_vacant : {A : Type 0} {o : Option A} {a : A} → o ≡ none → o ≡ some a → ⊥
not_vacant h e = cc

module _ {A : Type 0} (shard : A → ℕ) where
  -- `holder i` is the authority whose entry task `i` holds.
  pub record Owned (locks : ℕ → Option ℕ) (holder : ℕ → Option A) : Type 0 where
    pub owner : (i : ℕ) (a : A) → holder i ≡ some a → locks (shard a) ≡ some i
    pub held : (x i : ℕ) → locks x ≡ some i → (a : A) × (holder i ≡ some a) × (shard a ≡ x)

  -- Two tasks never hold entries of the same shard.
  pub Owned-unique :
      {locks : ℕ → Option ℕ} {holder : ℕ → Option A} (i j : ℕ) (a a' : A)
      → Owned locks holder
      → holder i ≡ some a
      → holder j ≡ some a'
      → shard a ≡ shard a'
      → i ≡ j
  Owned-unique {locks} i j a a' o h h' e =
      some_inj (sym (o.owner i a h) ∙ ap locks e ∙ o.owner j a' h')

  module _ {locks : ℕ → Option ℕ} {holder holder' : ℕ → Option A} (i : ℕ)
      (others : (j : ℕ) → j ≢ i → holder' j ≡ holder j) (o : Owned locks holder) where
    pub Owned-same : holder' i ≡ holder i → Owned locks holder'
    Owned-same e =
        let all : (j : ℕ) → holder' j ≡ holder j = λ j. elim (ℕ_discrete j i) [
          | yes same ↦ ap holder' same ∙ e ∙ ap holder (sym same)
          | no ne ↦ others j ne
        ] in
        record {
          owner = λ j a h. o.owner j a (sym (all j) ∙ h);
          held = λ x j h. let (a, h', e') = o.held x j h in (a, all j ∙ h', e');
        }

    pub Owned-take :
        (a : A)
        → holder i ≡ none
        → holder' i ≡ some a
        → locks (shard a) ≡ none
        → Owned (put locks (shard a) (some i)) holder'
    Owned-take a before after free = record {
      owner = λ j a' h. elim (ℕ_discrete j i) [
        | yes same ↦
            let one : a ≡ a' = some_inj (sym after ∙ ap holder' (sym same) ∙ h) in
            ap (λ y. put locks (shard a) (some i) (shard y)) (sym one)
            ∙ put_self locks (shard a) (some i)
            ∙ ap some (sym same)
        | no ne ↦
            let old = o.owner j a' (sym (others j ne) ∙ h) in
            put-other locks (shard a) (shard a') (some i) (λ e. not_vacant (ap locks e ∙ free) old)
            ∙ old
      ];
      held = λ x j h. elim (ℕ_discrete x (shard a)) [
        | yes same ↦
            let one : i ≡ j = some_inj (
              sym (ap (put locks (shard a) (some i)) same ∙ put_self locks (shard a) (some i))
              ∙ h) in
            (a, ap holder' (sym one) ∙ after, sym same)
        | no ne ↦
            let (a', h', e') = o.held x j (sym (put-other locks (shard a) x (some i) ne) ∙ h) in
            (a', others j (λ same. not_vacant before (ap holder (sym same) ∙ h')) ∙ h', e')
      ];
    }

    pub Owned-release :
        (a : A) → holder i ≡ some a → holder' i ≡ none → Owned (put locks (shard a) none) holder'
    Owned-release a before after = record {
      owner = λ j a' h. elim (ℕ_discrete j i) [
        | yes same ↦ absurd (not_vacant (ap holder' same ∙ after) h)
        | no ne ↦
            let old = sym (others j ne) ∙ h in
            put-other locks (shard a) (shard a') none
              (λ e. ne (Owned-unique j i a' a o old before e))
            ∙ o.owner j a' old
      ];
      held = λ x j h. elim (ℕ_discrete x (shard a)) [
        | yes same ↦
            absurd
              (not_vacant (ap (put locks (shard a) none) same ∙ put_self locks (shard a) none) h)
        | no ne ↦
            let (a', h', e') = o.held x j (sym (put-other locks (shard a) x none ne) ∙ h) in
            (
              a',
              others j
                    (λ same. ne (sym e' ∙ ap shard (some_inj (sym h' ∙ ap holder same ∙ before))))
                  ∙ h',
              e',
            )
      ];
    }

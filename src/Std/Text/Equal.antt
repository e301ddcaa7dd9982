-- ===== src/Std/Text/Equal.antt =====
-- Texts that `==` takes as equal are equal.
use navar.Base.{◌≡◌, refl, ap₂, [], ◌∷◌, true, ◌==◌, ==_iff, Bool-cases, inl, inr}
use navar.Std.Text.{text_eq}
use navar.Std.Utf8.{Text}

pub text_eq-same : (a b : Text) → text_eq a b ≡ true → a ≡ b
unfolding text_eq
text_eq-same [] [] h = refl
text_eq-same [] (y ∷ ys) h = cc
text_eq-same (x ∷ xs) [] h = cc
text_eq-same (x ∷ xs) (y ∷ ys) h = elim (Bool-cases (x == y)) [
  | inl e ↦ ap₂ (λ c t. c ∷ t) ((==_iff x y).0 e) (text_eq-same xs ys (rw e at h))
  | inr e ↦ let no = rw e at h in cc no
]

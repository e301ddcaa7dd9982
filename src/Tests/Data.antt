-- ===== src/Tests/Data.antt =====
-- A buffer in two pieces, and texts of ASCII.
use Prim.Native.Char.{code}
use Prim.Native.String.{String}
use navar.Base.{
  ℕ, zero, suc, ◌-◌, ◌<◌, ◌≡◌, refl, sym, ap, ap₂, ◌∙◌, [], ◌∷◌, ◌++◌, Bytes, length, append-nil,
  take, drop, take-length, drop-length, arith,
}
use navar.Buf.{Buf}
use navar.Normalize.{Boxes}

abbrev pub codes : String → Bytes
codes String.[] = []
codes (String.◌∷◌ c s) = code c ∷ codes s

abbrev pub Two : Type 0
Two = Bytes × Bytes

abbrev pub first_piece : Bytes → Bytes → Bytes
first_piece [] ys = ys
first_piece (x ∷ xs) ys = x ∷ xs

abbrev pub pass : Two → ℕ → Two
pass (xs, ys) n = (drop n xs, drop (n - length xs) ys)

pub drop_two : (xs ys : Bytes) (n : ℕ) → drop n xs ++ drop (n - length xs) ys ≡ drop n (xs ++ ys)
drop_two [] ys zero = refl
drop_two [] ys (suc n) = let same : suc n - 0 ≡ suc n = omega arith in ap (λ i. drop i ys) same
drop_two (x ∷ xs) ys zero =
    let same : 0 - suc (length xs) ≡ 0 = omega arith in ap (λ i. (x ∷ xs) ++ drop i ys) same
drop_two (x ∷ xs) ys (suc n) =
    let same : suc n - suc (length xs) ≡ n - length xs = omega arith in
    ap (λ i. drop n xs ++ drop i ys) same ∙ drop_two xs ys n

drop_nil : (n : ℕ) → drop {A = ℕ} n [] ≡ []
drop_nil zero = refl
drop_nil (suc n) = refl

pub first_piece_lem :
    (xs ys : Bytes)
    → xs ++ ys
      ≡ first_piece xs ys
        ++ (drop (length (first_piece xs ys)) xs
            ++ drop (length (first_piece xs ys) - length xs) ys)
first_piece_lem [] ys =
    let same : length ys - 0 ≡ length ys = omega arith in
    let none_left : drop {A = ℕ} (length ys) [] ≡ [] = drop_nil (length ys) in
    sym (append-nil ys)
    ∙ ap (λ t. ys ++ t) (sym (drop-length ys) ∙ ap (λ i. drop i ys) (sym same))
    ∙ ap (λ t. ys ++ (t ++ drop (length ys - 0) ys)) (sym none_left)
first_piece_lem (x ∷ xs) ys =
    let same : suc (length xs) - suc (length xs) ≡ 0 = omega arith in
    ap (λ t. x ∷ (xs ++ t)) (sym (ap₂ (λ s i. s ++ drop i ys) (drop-length xs) same))

pub first_piece-length : (xs ys : Bytes) → 0 < length (xs ++ ys) → 0 < length (first_piece xs ys)
first_piece-length [] ys h = h
first_piece-length (x ∷ xs) ys h = omega arith

abbrev pub two_buf : Buf Two
two_buf = record {
  remaining = λ d. length (d.0 ++ d.1);
  chunk = λ d. first_piece d.0 d.1;
  advance = pass;
  copy_to_bytes = λ d n. take n (d.0 ++ d.1);
  unread = λ d. d.0 ++ d.1;
  remaining-unread = λ d. refl;
  chunk-unread = λ d. first_piece_lem d.0 d.1;
  advance-unread = λ d n h. drop_two d.0 d.1 n;
  chunk_ne_nil = λ d h. first_piece-length d.0 d.1 h;
  copy_to_bytes-unread = λ d. take-length (d.0 ++ d.1);
}

abbrev pub boxes : Boxes two_buf two_buf
boxes = record { box = λ d. ([], d.0 ++ d.1); unread-box = λ d. refl }

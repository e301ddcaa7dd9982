-- ===== src/Lines/Slices.antt =====
-- A line that is copied out of the ring's two slices is a slice of the whole ring.
use navar.Base.{
  ℕ, ◌+◌, ◌-◌, ◌≤◌, ◌≡◌, sym, ap, ◌∙◌, false, inl, inr, ◌++◌, some, arith, Bytes, leb, le→leb,
  leb→le, Bool-cases, length, take, drop, slice?, length-append, length-drop, take-append,
  drop-append, take-length, drop-append_left, drop-append_right, take-append_left,
  take-append_right,
}
use navar.Lines.{extract_line}
use navar.Std.Deque.{Deque, contents}

slice?_lem :
    (xs : Bytes) (a b : ℕ) → a ≤ b → b ≤ length xs → slice? xs a b ≡ some (take (b - a) (drop a xs))
unfolding slice?
slice?_lem xs a b h k = rw (le→leb a b h, le→leb b (length xs) k)

module _ (s1 s2 : Bytes) where
  first_part :
      (start end : ℕ)
      → start ≤ end
      → end ≤ length s1
      → some (take (end - start) (drop start s1))
        ≡ some (take (end - start) (drop start (s1 ++ s2)))
  first_part start end h k = ap some (
      sym (take-append_left (end - start) (drop start s1) s2 (omega (arith, length-drop start s1)))
      ∙ ap (take (end - start)) (sym (drop-append_left start s1 s2 (omega arith))))

  second_part :
      (start end : ℕ)
      → length s1 ≤ start
      → some (take (end - length s1 - (start - length s1)) (drop (start - length s1) s2))
        ≡ some (take (end - start) (drop start (s1 ++ s2)))
  second_part start end h =
      let same : end - length s1 - (start - length s1) ≡ end - start = omega arith in
      rw (same, drop-append_right start s1 s2 h)

  both_parts :
      (start end : ℕ)
      → start ≤ length s1
      → length s1 ≤ end
      → some (take (length s1 - start) (drop start s1) ++ take (end - length s1 - 0) s2)
        ≡ some (take (end - start) (drop start (s1 ++ s2)))
  both_parts start end h k =
      let size : length (drop start s1) ≡ length s1 - start = length-drop start s1 in
      let same : end - length s1 - 0 ≡ end - start - length (drop start s1) = omega arith in
      rw (drop-append_left start s1 s2 h, same, ← size, take-length (drop start s1))
        (ap some (sym (take-append_right (end - start) (drop start s1) s2 (omega arith))))

pub lt_of_leb : (a b : ℕ) → leb a b ≡ false → b ≤ a
lt_of_leb a b h = ground arith

-- The three cases are one slice of the whole ring.
extract_line-slice? :
    (s1 s2 : Bytes) (start end : ℕ)
    → start ≤ end
    → end ≤ length s1 + length s2
    → extract_line s1 s2 start end ≡ some (take (end - start) (drop start (s1 ++ s2)))
unfolding extract_line
extract_line-slice? s1 s2 start end h k = elim (Bool-cases (leb end (length s1))) [
  | inl e ↦
      rw (e, slice?_lem s1 start end h (leb→le _ _ e)) (first_part s1 s2 start end h (leb→le _ _ e))
  | inr e ↦ elim (Bool-cases (leb (length s1) start)) [
    | inl f ↦
        rw (e, f, slice?_lem s2 (start - length s1) (end - length s1) (omega arith) (omega arith))
          (second_part s1 s2 start end (leb→le _ _ f))
    | inr f ↦
        rw
          (
            e,
            f,
            slice?_lem s1 start (length s1) (lt_of_leb _ _ f) (omega arith),
            slice?_lem s2 0 (end - length s1) (omega arith) (omega arith),
          )
          (both_parts s1 s2 start end (lt_of_leb _ _ f) (lt_of_leb _ _ e))
  ]
]

pub extract_line_lem :
    (d : Deque ℕ) (done line rest : Bytes)
    → contents d ≡ done ++ (line ++ rest)
    → extract_line d.front d.back (length done) (length done + length line) ≡ some line
extract_line_lem d done line rest e =
    let size : length d.front + length d.back ≡ length done + (length line + length rest) =
      sym (length-append d.front d.back)
      ∙ ap length e
      ∙ length-append done (line ++ rest)
      ∙ ap (λ t. length done + t) (length-append line rest) in
    let same : length done + length line - length done ≡ length line = omega arith in
    extract_line-slice? d.front d.back (length done) _ (omega arith) (omega arith)
    ∙ rw (e, same, drop-append done (line ++ rest), take-append line rest)

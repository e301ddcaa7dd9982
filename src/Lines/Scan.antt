-- ===== src/Lines/Scan.antt =====
-- The scan of the ring finds the reference's lines.
use navar.Base.{
  ℕ, ◌+◌, ◌≡◌, refl, sym, ap, ◌∙◌, true, false, inl, inr, [], ◌∷◌, ◌++◌, append-nil, append_assoc,
  Option, some, arith, Bytes, ◌==◌, Bool-cases, length, get_elem?, length-append, get_elem?-append,
  foldl,
}
use navar.Lines.Split.{cut}
use navar.Lines.{scan_at, scan}
use navar.Std.Deque.Laws.{get-contents}
use navar.Std.Deque.{Deque, contents, get}
use navar.Lines.Slices.{extract_line_lem}

module _ {S : Type 0} (buffer : Deque ℕ) (f : S → Bytes → S) where
  get_lem :
      (done begun : Bytes) (b : ℕ) (bs : Bytes)
      → contents buffer ≡ done ++ (begun ++ b ∷ bs)
      → get buffer (length done + length begun) ≡ some b
  get_lem done begun b bs e =
      get-contents buffer _
      ∙ ap (λ t. get_elem? t (length done + length begun))
          (e ∙ sym (append_assoc done begun (b ∷ bs)))
      ∙ ap (get_elem? ((done ++ begun) ++ b ∷ bs)) (sym (length-append done begun))
      ∙ get_elem?-append (done ++ begun) b bs

  scan_at_newline :
      (done begun : Bytes) (b : ℕ) (bs : Bytes) (s : S)
      → contents buffer ≡ done ++ (begun ++ b ∷ bs)
      → (b == b'\n') ≡ true
      → scan_at buffer f (length done + length begun) (s, length done)
        ≡ some (f s begun, length done + length begun + 1)
  unfolding scan_at
  scan_at_newline done begun b bs s e h =
      rw (get_lem done begun b bs e, h, extract_line_lem buffer done begun (b ∷ bs) e)

  scan_at_other :
      (done begun : Bytes) (b : ℕ) (bs : Bytes) (s : S)
      → contents buffer ≡ done ++ (begun ++ b ∷ bs)
      → (b == b'\n') ≡ false
      → scan_at buffer f (length done + length begun) (s, length done) ≡ some (s, length done)
  unfolding scan_at
  scan_at_other done begun b bs s e h = rw (scan_at, get_lem done begun b bs e, h)

  -- The whole loop: the complete lines go to `f` in order, and `processed` ends where the last one ends.
  pub record Scanned (done begun bs : Bytes) (s : S) (r : Option (S × ℕ)) : Type 0 where
    pub passed : Bytes
    pub splits : done ++ (begun ++ bs) ≡ passed ++ (cut begun bs).left
    pub result : r ≡ some (foldl f s (cut begun bs).lines, length passed)

  Scanned-newline :
      (done begun : Bytes) (b : ℕ) (bs : Bytes) (s : S) {r : Option (S × ℕ)}
      → (b == b'\n') ≡ true
      → Scanned (done ++ (begun ++ b ∷ [])) [] bs (f s begun) r
      → Scanned done begun (b ∷ bs) s r
  unfolding cut
  Scanned-newline done begun b bs s h rest = record {
    passed = rest.passed;
    splits = rw h (
        ap (λ t. done ++ t) (sym (append_assoc begun (b ∷ []) bs))
        ∙ sym (append_assoc done (begun ++ b ∷ []) bs)
        ∙ rest.splits);
    result = rw h rest.result;
  }

  Scanned-other :
      (done begun : Bytes) (b : ℕ) (bs : Bytes) (s : S) {r : Option (S × ℕ)}
      → (b == b'\n') ≡ false
      → Scanned done (begun ++ b ∷ []) bs s r
      → Scanned done begun (b ∷ bs) s r
  unfolding cut
  Scanned-other done begun b bs s h rest = record {
    passed = rest.passed;
    splits = rw h (ap (λ t. done ++ t) (sym (append_assoc begun (b ∷ []) bs)) ∙ rest.splits);
    result = rw h rest.result;
  }

  pub scan_lem :
      (bs done begun : Bytes) (s : S) (position processed : ℕ)
      → contents buffer ≡ done ++ (begun ++ bs)
      → position ≡ length done + length begun
      → processed ≡ length done
      → Scanned done begun bs s (scan buffer f (length bs) position (s, processed))
  unfolding scan cut
  scan_lem [] done begun s position processed e p q = record {
    passed = done;
    splits = ap (λ t. done ++ t) (append-nil begun);
    result = rw q;
  }
  scan_lem (b ∷ bs) done begun s position processed e p q = elim (Bool-cases (b == b'\n')) [
    | inl h ↦
        rw (p, q, scan_at_newline done begun b bs s e h)
          (Scanned-newline done begun b bs s h (
            scan_lem bs (done ++ (begun ++ b ∷ [])) [] (f s begun) _ _
              (e
                ∙ ap (λ t. done ++ t) (sym (append_assoc begun (b ∷ []) bs))
                ∙ sym (append_assoc done (begun ++ b ∷ []) bs))
              (omega (arith, length-append done (begun ++ b ∷ []), length-append begun (b ∷ [])))
              (omega (arith, length-append done (begun ++ b ∷ []), length-append begun (b ∷ [])))))
    | inr h ↦
        rw (p, q, scan_at_other done begun b bs s e h)
          (Scanned-other done begun b bs s h (
            scan_lem bs done (begun ++ b ∷ []) s _ _
              (e ∙ ap (λ t. done ++ t) (sym (append_assoc begun (b ∷ []) bs)))
              (omega (arith, length-append begun (b ∷ []))) refl))
  ]

-- ===== src/Lines/Copy.antt =====
-- The loop that copies a frame into the buffer ends, and copies all that is unread.
use navar.Base.{
  ℕ, zero, suc, ◌<◌, ◌≡◌, sym, ap, ◌∙◌, false, inl, inr, ◌++◌, append-nil, append_assoc, some,
  arith, Bytes, ◌==◌, Bool-cases, ==_iff, length_zero, length, length-append,
}
use navar.Buf.{Buf}
use navar.Lines.{read_frame}

-- A round passes at least one byte.
chunk_shortens :
    {D : Type 0} (b : Buf D) (d : D) (fuel : ℕ)
    → b.remaining d < suc fuel
    → (b.remaining d == 0) ≡ false
    → b.remaining (b.advance d (length (b.chunk d))) < fuel
chunk_shortens b d fuel h e =
    let d' = b.advance d (length (b.chunk d)) in
    let positive : 0 < b.remaining d = ground arith in
    omega (
      arith,
      b.chunk_ne_nil d positive,
      b.remaining-unread d,
      b.remaining-unread d',
      ap length (b.chunk-unread d),
      length-append (b.chunk d) (b.unread d'),
    )

-- What the copy loop leaves, for a reader of type `Q` whose bytes are `view q`.
pub read_frame_lem :
    {D Q : Type 0} (b : Buf D) (push : Q → Bytes → Q) (view : Q → Bytes)
    → ((q : Q) (xs : Bytes) → view (push q xs) ≡ view q ++ xs)
    → (fuel : ℕ) (q : Q) (d : D) → b.remaining d < fuel
    → (q' : Q) × (read_frame b push fuel q d ≡ some q') × (view q' ≡ view q ++ b.unread d)
unfolding read_frame
read_frame_lem b push view law zero q d h = absurd (omega arith)
read_frame_lem b push view law (suc fuel) q d h = elim (Bool-cases (b.remaining d == 0)) [
  | inl e ↦ (
    q,
    rw e,
    sym (append-nil (view q))
        ∙ ap (λ t. view q ++ t)
            (sym
              (length_zero (b.unread d) (omega (arith, (==_iff _ _).0 e, b.remaining-unread d)))),
  )
  | inr e ↦
      let d' = b.advance d (length (b.chunk d)) in
      let (q', run, seen) =
        read_frame_lem b push view law fuel (push q (b.chunk d)) d' (chunk_shortens b d fuel h e) in
      (
        q',
        rw e run,
        seen
            ∙ ap (λ t. t ++ b.unread d') (law q (b.chunk d))
            ∙ append_assoc (view q) (b.chunk d) (b.unread d')
            ∙ ap (λ t. view q ++ t) (sym (b.chunk-unread d)),
      )
]

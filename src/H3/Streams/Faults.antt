-- ===== src/H3/Streams/Faults.antt =====
-- Where the adapter of streams does not do what it is for: a transport that takes no bytes, and `split`.
use navar.Base.{
  ℕ, zero, suc, ◌≡◌, ◌≢◌, refl, ap, ◌∙◌, [], ◌∷◌, ◌++◌, Option, none, Result, ok, Poll, ready,
  Bytes, length, le→leb, arith, length-append, ◌↔◌, length_zero,
}
use navar.Buf.{bytes_buf}
use navar.H3.Streams.{
  Writer, H3SendStream, H3BidiStream, Answer, after_write, write_out, poll_ready, split,
}

spin_step :
    {S I : Type 0} (w : Writer S I) (again : S → Bytes → Option (Answer × S × Bytes)) (buf : Bytes)
    (p : Poll (Result I ℕ) × S)
    → p.0 ≡ ready (ok 0)
    → after_write w again buf p ≡ again p.1 buf
unfolding after_write
spin_step w again buf (a, s) h = rw (h, le→leb 0 (length buf) (omega arith))

write_out_spins :
    {S I : Type 0} (w : Writer S I)
    → ((s : S) (bs : Bytes) → (w.poll_write s bs).0 ≡ ready (ok 0))
    → (fuel : ℕ) (s : S) (buf : Bytes) → buf ≢ []
    → write_out w fuel s buf ≡ none
unfolding write_out
write_out_spins w stuck zero s buf ne = refl
write_out_spins w stuck (suc fuel) s [] ne = absurd (ne refl)
write_out_spins w stuck (suc fuel) s (x ∷ buf) ne =
    spin_step w (write_out w fuel) (x ∷ buf) (w.poll_write s (x ∷ buf)) (stuck s (x ∷ buf))
    ∙ write_out_spins w stuck fuel (w.poll_write s (x ∷ buf)).1 (x ∷ buf) ne

-- Where a transport answers every write with 0 bytes, no number of rounds lets `poll_ready` return while
-- something is buffered.
pub poll_ready_spins :
    {S I : Type 0} (w : Writer S I)
    → ((s : S) (bs : Bytes) → (w.poll_write s bs).0 ≡ ready (ok 0))
    → (fuel : ℕ) (s : H3SendStream S) → s.buf ≢ []
    → poll_ready w fuel s ≡ none
unfolding poll_ready
poll_ready_spins w stuck fuel s ne = rw (write_out_spins w stuck fuel s.inner s.buf ne)

-- Splitting a bidirectional stream keeps what was given to it exactly when nothing of it is still
-- buffered, for halves that have taken what the whole has: the buffer is dropped.
pub given-split_iff :
    {S Send Recv I : Type 0} (w : Writer S I) (w' : Writer Send I) (halves : S → Send × Recv)
    (s : H3BidiStream S)
    → w'.taken (halves s.inner).0 ≡ w.taken s.inner
    → (w'.taken (split halves s).0.inner ++ (split halves s).0.buf ≡ w.taken s.inner ++ s.send_buf)
      ↔ (s.send_buf ≡ [])
unfolding split
given-split_iff w w' halves s same = (
  λ h. length_zero s.send_buf (
      omega (
        arith,
        ap length h,
        ap length same,
        length-append (w'.taken (halves s.inner).0) [],
        length-append (w.taken s.inner) s.send_buf,
      )),
  λ empty. rw (same, empty),
)

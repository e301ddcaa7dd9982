-- ===== src/H3/Streams/Receiving.antt =====
-- What a stream that receives brings.
use navar.Base.{
  ℕ, zero, suc, ◌≤◌, ◌<◌, ◌≡◌, refl, sym, ap, ◌∙◌, [], ◌∷◌, ◌++◌, append_assoc, Option, none, some,
  Result, ok, err, Poll, ready, pending, Bytes, length, arith,
}
use navar.H3.Errors.{StreamErrorIncoming}
use navar.H3.Streams.{Source, H3RecvStream, on_read, poll_data}

abbrev pub piece : Poll (Result StreamErrorIncoming (Option Bytes)) → Bytes
piece (ready (ok (some bs))) = bs
piece (ready (ok none)) = []
piece (ready (err e)) = []
piece pending = []

module _ {S I : Type 0} (r : Source S I) where
  -- The data of so many polls, and the stream after them.
  abbrev pub gather : ℕ → H3RecvStream S → Bytes × H3RecvStream S
  gather zero s = ([], s)
  gather (suc n) s =
      (piece (poll_data r s).0 ++ (gather n (poll_data r s).1).0, (gather n (poll_data r s).1).1)

  pub read_lem :
      (s : S) (a : Poll (Result I Bytes))
      → (r.poll_read s 4096).0 ≡ a
      → r.coming s ≡ piece (on_read a) ++ r.coming (r.poll_read s 4096).1
  read_lem s (ready (ok [])) h = (r.coming_read s 4096 [] h).1
  read_lem s (ready (ok (x ∷ bs))) h = (r.coming_read s 4096 (x ∷ bs) h).1
  read_lem s (ready (err e)) h = sym (r.coming_no_read s 4096 (λ bs k. cc))
  read_lem s pending h = sym (r.coming_no_read s 4096 (λ bs k. cc))

  -- Polled any number of times, a stream that receives brings the incoming bytes in order, none of them
  -- lost or twice: its data, and then what is still to come, is what was to come before.
  pub gather-coming :
      (n : ℕ) (s : H3RecvStream S)
      → r.coming s.inner ≡ (gather n s).0 ++ r.coming (gather n s).1.inner
  unfolding poll_data
  gather-coming zero s = refl
  gather-coming (suc n) s =
      read_lem s.inner (r.poll_read s.inner 4096).0 refl
      ∙ ap (λ t. piece (poll_data r s).0 ++ t) (gather-coming n (poll_data r s).1)
      ∙ sym (
          append_assoc (piece (poll_data r s).0) (gather n (poll_data r s).1).0
            (r.coming (gather n (poll_data r s).1).1.inner))

  chunk_lem :
      (s : S) (a : Poll (Result I Bytes)) (bs : Bytes)
      → (r.poll_read s 4096).0 ≡ a
      → on_read a ≡ ready (ok (some bs))
      → (0 < length bs) × (length bs ≤ 4096)
  chunk_lem s (ready (ok [])) bs h e = cc
  chunk_lem s (ready (ok (x ∷ xs))) bs h e =
      let same : x ∷ xs ≡ bs = cc in
      let fits = (r.coming_read s 4096 (x ∷ xs) h).0 in
      (omega (arith, sym (ap length same)), omega (arith, ap length same, fits))
  chunk_lem s (ready (err x)) bs h e = cc
  chunk_lem s pending bs h e = cc

  -- Data that a stream brings is never empty, and is of 4096 bytes at most.
  pub poll_data-length :
      (s : H3RecvStream S) (bs : Bytes)
      → (poll_data r s).0 ≡ ready (ok (some bs))
      → (0 < length bs) × (length bs ≤ 4096)
  unfolding poll_data
  poll_data-length s bs h = chunk_lem s.inner (r.poll_read s.inner 4096).0 bs refl h

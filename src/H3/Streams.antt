-- ===== src/H3/Streams.antt =====
-- navar-h3/src/adapter.rs: the adapters of streams, with their buffers for what is to be sent. A stream of
-- the transport is of a type `S`; its functions are those of `AsyncRead` and `AsyncWrite`, and a poll
-- changes it.
pub mod Written
pub mod Sending
pub mod Faults
pub mod Receiving
pub mod Bidirectional
use navar.Base.{
  ℕ, zero, suc, ◌+◌, ◌≤◌, ◌≡◌, List, [], ◌∷◌, ◌++◌, Option, none, some, Result, ok, err, Poll,
  ready, pending, Bytes, Bool, is_empty, take, drop, length, leb, ◌==◌, if◌then◌else◌, ◌>>=◌,
}
use navar.Buf.{Buf}
use navar.H3.Errors.{StreamErrorIncoming, stream_error}

-- `AsyncWrite`, with what has been taken so far. A write takes a prefix of what it is given.
pub record Writer (S I : Type 0) : Type 0 where
  pub poll_write : S → Bytes → Poll (Result I ℕ) × S
  pub poll_flush : S → Poll (Result I (Unit {0})) × S
  pub taken : S → Bytes
  pub taken_write :
      (s : S) (bs : Bytes) (n : ℕ)
      → (poll_write s bs).0 ≡ ready (ok n)
      → (n ≤ length bs) × (taken (poll_write s bs).1 ≡ taken s ++ take n bs)
  pub taken_no_write :
      (s : S) (bs : Bytes)
      → ((n : ℕ) → (poll_write s bs).0 ≡ ready (ok n) → ⊥)
      → taken (poll_write s bs).1 ≡ taken s
  pub taken_flush : (s : S) → taken (poll_flush s).1 ≡ taken s

-- `AsyncRead`, with what is still to come: a read brings at most `cap` bytes of it.
pub record Source (S I : Type 0) : Type 0 where
  pub poll_read : S → ℕ → Poll (Result I Bytes) × S
  pub coming : S → Bytes
  pub coming_read :
      (s : S) (cap : ℕ) (bs : Bytes)
      → (poll_read s cap).0 ≡ ready (ok bs)
      → (length bs ≤ cap) × (coming s ≡ bs ++ coming (poll_read s cap).1)
  pub coming_no_read :
      (s : S) (cap : ℕ)
      → ((bs : Bytes) → (poll_read s cap).0 ≡ ready (ok bs) → ⊥)
      → coming (poll_read s cap).1 ≡ coming s

pub record H3SendStream (S : Type 0) : Type 0 where
  pub inner : S
  pub buf : Bytes

pub record H3RecvStream (S : Type 0) : Type 0 where
  pub inner : S

pub record H3BidiStream (S : Type 0) : Type 0 where
  pub inner : S
  pub send_buf : Bytes

-- The functions `new` of the three.
abbrev pub send_stream : {S : Type 0} → S → H3SendStream S
send_stream inner = record { inner = inner; buf = [] }

abbrev pub recv_stream : {S : Type 0} → S → H3RecvStream S
recv_stream inner = record { inner = inner }

abbrev pub bidi_stream : {S : Type 0} → S → H3BidiStream S
bidi_stream inner = record { inner = inner; send_buf = [] }

abbrev pub Answer : Type 0
Answer = Poll (Result StreamErrorIncoming (Unit {0}))

module _ {S I : Type 0} (w : Writer S I) where
  -- What one round makes of a write's answer; `again` is the next round. An advance past the end of the
  -- buffer is a panic.
  after_write :
      (S → Bytes → Option (Answer × S × Bytes))
      → Bytes
      → Poll (Result I ℕ) × S
      → Option (Answer × S × Bytes)
  after_write again buf (ready (ok n), s) =
      if leb n (length buf) then again s (drop n buf) else none
  after_write again buf (ready (err e), s) = some (ready (err stream_error), s, buf)
  after_write again buf (pending, s) = some (pending, s, buf)

  -- `while !self.buf.is_empty() { ... }`, in at most `fuel` rounds; `none` if they do not do.
  unfoldable pub write_out : ℕ → S → Bytes → Option (Answer × S × Bytes)
  unfolding after_write
  write_out zero s buf = none
  write_out (suc fuel) s buf =
      if is_empty buf
      then some (ready (ok tt), s, buf)
      else after_write (write_out fuel) buf (w.poll_write s buf)

  on_flush : Poll (Result I (Unit {0})) → Answer
  on_flush (ready (ok u)) = ready (ok tt)
  on_flush (ready (err e)) = ready (err stream_error)
  on_flush pending = pending

  -- `ready!(self.poll_ready(cx)?)`, and then the flush.
  unfoldable pub flush_after : Answer → S → Answer × S
  unfolding on_flush
  flush_after (ready (ok u)) s = (on_flush (w.poll_flush s).0, (w.poll_flush s).1)
  flush_after (ready (err e)) s = (ready (err e), s)
  flush_after pending s = (pending, s)

  module _ (fuel : ℕ) where
    unfoldable pub poll_ready : H3SendStream S → Option (Answer × H3SendStream S)
    unfolding write_out
    poll_ready s = do
      (answer, inner, buf) ← write_out fuel s.inner s.buf
      some (answer, record { inner = inner; buf = buf })

    unfoldable pub poll_finish : H3SendStream S → Option (Answer × H3SendStream S)
    unfolding poll_ready flush_after
    poll_finish s = do
      (answer, s') ← poll_ready s
      some ((flush_after answer s'.inner).0, record s' { inner = (flush_after answer s'.inner).1 })

    unfoldable pub poll_ready_bidi : H3BidiStream S → Option (Answer × H3BidiStream S)
    unfolding write_out
    poll_ready_bidi s = do
      (answer, inner, buf) ← write_out fuel s.inner s.send_buf
      some (answer, record { inner = inner; send_buf = buf })

    unfoldable pub poll_finish_bidi : H3BidiStream S → Option (Answer × H3BidiStream S)
    unfolding poll_ready_bidi flush_after
    poll_finish_bidi s = do
      (answer, s') ← poll_ready_bidi s
      some ((flush_after answer s'.inner).0, record s' { inner = (flush_after answer s'.inner).1 })

module _ {D : Type 0} (b : Buf D) where
  -- `while data.has_remaining() { buf.extend_from_slice(&data.copy_to_bytes(data.remaining())) }`. A round
  -- takes all that remains, so two are enough.
  unfoldable pub take_all : ℕ → Bytes → D → Option Bytes
  take_all zero buf d = none
  take_all (suc rounds) buf d =
      let rest =
        take_all rounds (buf ++ b.copy_to_bytes d (b.remaining d)) (b.advance d (b.remaining d)) in
      if b.remaining d == 0 then some buf else rest

  unfoldable pub send_data : {S : Type 0} → H3SendStream S → D → Option (H3SendStream S)
  unfolding take_all
  send_data s d = do buf ← take_all 2 s.buf d; some (record s { buf = buf })

  unfoldable pub send_data_bidi : {S : Type 0} → H3BidiStream S → D → Option (H3BidiStream S)
  unfolding take_all
  send_data_bidi s d = do buf ← take_all 2 s.send_buf d; some (record s { send_buf = buf })

-- `H3BidiStream::split`; `halves` is the stream's own `split`.
unfoldable pub split :
    {S Send Recv : Type 0}
    → (S → Send × Recv)
    → H3BidiStream S
    → H3SendStream Send × H3RecvStream Recv
split halves s = (send_stream (halves s.inner).0, recv_stream (halves s.inner).1)

-- `poll_data`, for both streams that receive: a read of no bytes is the end.
abbrev pub on_read :
    {I : Type 0} → Poll (Result I Bytes) → Poll (Result StreamErrorIncoming (Option Bytes))
on_read (ready (ok [])) = ready (ok none)
on_read (ready (ok (x ∷ bs))) = ready (ok (some (x ∷ bs)))
on_read (ready (err e)) = ready (err stream_error)
on_read pending = pending

module _ {S I : Type 0} (r : Source S I) where
  unfoldable pub poll_data :
      H3RecvStream S → Poll (Result StreamErrorIncoming (Option Bytes)) × H3RecvStream S
  poll_data s =
      (on_read (r.poll_read s.inner 4096).0, record { inner = (r.poll_read s.inner 4096).1 })

  unfoldable pub poll_data_bidi :
      H3BidiStream S → Poll (Result StreamErrorIncoming (Option Bytes)) × H3BidiStream S
  poll_data_bidi s =
      (on_read (r.poll_read s.inner 4096).0, record s { inner = (r.poll_read s.inner 4096).1 })

-- `recv_id` and `send_id`: an identifier that is no `h3::quic::StreamId` becomes 0 on a one-way stream,
-- and is a panic, `none`, on a bidirectional one. `try_from` is the crate's conversion.
unfoldable pub one_way_id : {StreamId : Type 0} → (ℕ → Option StreamId) → ℕ → Option StreamId
one_way_id try_from id = elim (try_from id) [ some i ↦ some i | none ↦ try_from 0 ]

unfoldable pub bidi_id : {StreamId : Type 0} → (ℕ → Option StreamId) → ℕ → Option StreamId
bidi_id try_from id = try_from id

abbrev pub send_id : {StreamId : Type 0} → (ℕ → Option StreamId) → ℕ → Option StreamId
send_id try_from id = one_way_id try_from id

abbrev pub send_id_bidi : {StreamId : Type 0} → (ℕ → Option StreamId) → ℕ → Option StreamId
send_id_bidi try_from id = bidi_id try_from id

-- `reset` and `stop_sending` of the streams: their bodies are empty.
abbrev pub reset : {S : Type 0} → ℕ → H3SendStream S → H3SendStream S
reset code s = s

abbrev pub reset_bidi : {S : Type 0} → ℕ → H3BidiStream S → H3BidiStream S
reset_bidi code s = s

abbrev pub stop_sending : {S : Type 0} → ℕ → H3RecvStream S → H3RecvStream S
stop_sending code s = s

abbrev pub stop_sending_bidi : {S : Type 0} → ℕ → H3BidiStream S → H3BidiStream S
stop_sending_bidi code s = s

-- ===== src/Transport.antt =====
-- src/transport.rs: the traits of transports, as records of functions. `Awaited` is what awaiting a future
-- comes to, with `pending` for one that is never ready; `Io` is what a poll of a stream answers, with the
-- stream that it leaves. A trait's default method is a function that an instance may take.
use navar.Base.{ℕ, Bytes, Option, none, Result, Poll, ready, pending}
use navar.Std.Utf8.{Text}

abbrev pub Awaited : Type 0 → Type 0 → Type 0
Awaited E A = Poll (Result E A)

abbrev pub Io : Type 0 → Type 0 → Type 0 → Type 0
Io I S A = Poll (Result I A) × S

-- A future that is ready at some time, and what it is then.
abbrev pub IsReady : {E A : Type 0} → Awaited E A → Type 0
IsReady (ready r) = Unit {0}
IsReady pending = ⊥

abbrev pub when_ready : {E A : Type 0} (f : Awaited E A) → IsReady f → Result E A
when_ready (ready r) h = r
when_ready pending h = absurd h

-- `AsyncRead` and `AsyncWrite` of futures-lite. A read has a buffer of some length.
pub record AsyncRead (I S : Type 0) : Type 0 where
  pub poll_read : S → ℕ → Io I S Bytes

pub record AsyncWrite (I S : Type 0) : Type 0 where
  pub poll_write : S → Bytes → Io I S ℕ
  pub poll_flush : S → Io I S (Unit {0})
  pub poll_close : S → Io I S (Unit {0})

pub record Stream (S : Type 0) : Type 0 where
  pub stream_id : S → ℕ

pub record SendStream (I S : Type 0) : Type 0 where
  pub stream : Stream S
  pub write : AsyncWrite I S

pub record RecvStream (I S : Type 0) : Type 0 where
  pub stream : Stream S
  pub read : AsyncRead I S

pub record BidiStream (I S Send Recv : Type 0) : Type 0 where
  pub stream : Stream S
  pub read : AsyncRead I S
  pub write : AsyncWrite I S
  pub send : SendStream I Send
  pub recv : RecvStream I Recv
  pub split : S → Send × Recv
  pub alpn_protocol : S → Option Text

-- The default `alpn_protocol` of `BidiStream`, and that of `Connection`.
abbrev pub no_stream_alpn : {S : Type 0} → S → Option Text
no_stream_alpn s = none

abbrev pub no_connection_alpn : {C : Type 0} → C → Option Text
no_connection_alpn c = none

pub record Connection (E C Bidi Send Recv : Type 0) : Type 0 where
  pub open_bidirectional : C → Awaited E Bidi
  pub open_unidirectional : C → Awaited E Send
  pub accept_bidirectional : C → Awaited E Bidi
  pub accept_unidirectional : C → Awaited E Recv
  pub alpn_protocol : C → Option Text

pub record TransportPlugin (E T Uri Conn : Type 0) : Type 0 where
  pub connect : T → Uri → Awaited E Conn

-- ===== src/H3/Connect.antt =====
-- navar-h3/src/adapter.rs: `H3Connection`, which turns the async functions of a connection into polled
-- ones by keeping the future that is under way. A future is of a type `F A`, and polling it changes it.
pub mod Polls
use navar.Base.{ℕ, Bytes, [], Option, none, some, Result, ok, err, Poll, ready, pending}
use navar.H3.Errors.{ConnectionErrorIncoming, StreamErrorIncoming, conn_closed, stream_error}
use navar.H3.Streams.{
  H3BidiStream, H3SendStream, H3RecvStream, bidi_stream, send_stream, recv_stream,
}

-- A `navar::transport::Connection`, with boxed futures.
pub record Connection (C Bidi Send Recv E : Type 0) : Type 1 where
  pub Fut : Type 0 → Type 0
  pub poll : {A : Type 0} → Fut A → Poll (Result E A) × Fut A
  pub open_bidirectional : C → Fut Bidi
  pub open_unidirectional : C → Fut Send
  pub accept_bidirectional : C → Fut Bidi
  pub accept_unidirectional : C → Fut Recv

module _ {C Bidi Send Recv E : Type 0} (conn : Connection C Bidi Send Recv E) where
  pub record H3Connection : Type 0 where
    pub inner : C
    pub accept_bidi_fut : Option (conn.Fut Bidi)
    pub accept_uni_fut : Option (conn.Fut Recv)
    pub open_bidi_fut : Option (conn.Fut Bidi)
    pub open_uni_fut : Option (conn.Fut Send)

  unfoldable pub new : C → H3Connection
  new inner = record {
    inner = inner;
    accept_bidi_fut = none;
    accept_uni_fut = none;
    open_bidi_fut = none;
    open_uni_fut = none;
  }

  unfoldable pub clone : H3Connection → H3Connection
  clone s = record {
    inner = s.inner;
    accept_bidi_fut = none;
    accept_uni_fut = none;
    open_bidi_fut = none;
    open_uni_fut = none;
  }

  -- `opener`
  unfoldable pub opener : H3Connection → H3Connection
  unfolding clone
  opener s = clone s

  -- `close` has an empty body.
  abbrev pub close : ℕ → Bytes → H3Connection → H3Connection
  close code reason s = s

  -- The body that the four functions share: a future is made if none is under way, and polled. Every
  -- branch returns, so the source's `loop` has one round. The slot is emptied once the future is done.
  pub on_poll :
      {A B X : Type 0}
      → X
      → (A → B)
      → Poll (Result E A) × conn.Fut A
      → Poll (Result X B) × Option (conn.Fut A)
  on_poll failure wrap (ready (ok a), f) = (ready (ok (wrap a)), none)
  on_poll failure wrap (ready (err e), f) = (ready (err failure), none)
  on_poll failure wrap (pending, f) = (pending, some f)

  unfoldable pub under_way : {A : Type 0} → Option (conn.Fut A) → conn.Fut A → conn.Fut A
  under_way none fresh = fresh
  under_way (some f) fresh = f

  poll_slot :
      {A B X : Type 0}
      → X
      → (A → B)
      → conn.Fut A
      → Option (conn.Fut A)
      → Poll (Result X B) × Option (conn.Fut A)
  unfolding on_poll under_way
  poll_slot failure wrap fresh slot = on_poll failure wrap (conn.poll (under_way slot fresh))

  unfoldable pub poll_open_bidi :
      H3Connection → Poll (Result StreamErrorIncoming (H3BidiStream Bidi)) × H3Connection
  unfolding poll_slot
  poll_open_bidi s =
      let (answer, slot) =
        poll_slot stream_error bidi_stream (conn.open_bidirectional s.inner) s.open_bidi_fut in
      (answer, record s { open_bidi_fut = slot })

  unfoldable pub poll_open_send :
      H3Connection → Poll (Result StreamErrorIncoming (H3SendStream Send)) × H3Connection
  unfolding poll_slot
  poll_open_send s =
      let (answer, slot) =
        poll_slot stream_error send_stream (conn.open_unidirectional s.inner) s.open_uni_fut in
      (answer, record s { open_uni_fut = slot })

  unfoldable pub poll_accept_bidi :
      H3Connection → Poll (Result ConnectionErrorIncoming (H3BidiStream Bidi)) × H3Connection
  unfolding poll_slot
  poll_accept_bidi s =
      let (answer, slot) =
        poll_slot conn_closed bidi_stream (conn.accept_bidirectional s.inner) s.accept_bidi_fut in
      (answer, record s { accept_bidi_fut = slot })

  unfoldable pub poll_accept_recv :
      H3Connection → Poll (Result ConnectionErrorIncoming (H3RecvStream Recv)) × H3Connection
  unfolding poll_slot
  poll_accept_recv s =
      let (answer, slot) =
        poll_slot conn_closed recv_stream (conn.accept_unidirectional s.inner) s.accept_uni_fut in
      (answer, record s { accept_uni_fut = slot })

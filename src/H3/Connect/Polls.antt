-- ===== src/H3/Connect/Polls.antt =====
-- The four polls of a connection see one future through.
use navar.Base.{
  ℕ, zero, suc, ◌≡◌, refl, ap, ◌∙◌, Option, none, some, Result, ok, err, Poll, ready, pending,
}
use navar.H3.Connect.{
  Connection, H3Connection, on_poll, under_way, poll_slot, poll_open_bidi, poll_open_send,
  poll_accept_bidi, poll_accept_recv,
}
use navar.H3.Errors.{conn_closed, stream_error}
use navar.H3.Streams.{bidi_stream, send_stream, recv_stream}

-- A poll is made again, `n` times at most, for as long as it is not ready: the last answer, and what is left.
abbrev pub again : {A X : Type 0} → (X → Poll A × X) → ℕ → Poll A × X → Poll A × X
again step zero p = p
again step (suc n) (ready a, x) = (ready a, x)
again step (suc n) (pending, x) = again step n (step x)

-- Only a future that is not ready is kept.
abbrev pub kept : {A X : Type 0} → Poll A × X → Option X
kept (ready a, x) = none
kept (pending, x) = some x

abbrev pub outcome : {E A B X : Type 0} → X → (A → B) → Poll (Result E A) → Poll (Result X B)
outcome failure wrap (ready (ok a)) = ready (ok (wrap a))
outcome failure wrap (ready (err e)) = ready (err failure)
outcome failure wrap pending = pending

module _ {C Bidi Send Recv E : Type 0} (conn : Connection C Bidi Send Recv E) where
  -- A function that polls the future in one slot: `put` is the connection with the slot filled.
  again-outcome :
      {A B X S : Type 0} (failure : X) (wrap : A → B) (fresh : conn.Fut A)
      (put : Option (conn.Fut A) → S) (step : S → Poll (Result X B) × S)
      → ((slot : Option (conn.Fut A))
          → step (put slot) ≡ (
            (poll_slot conn failure wrap fresh slot).0,
            put (poll_slot conn failure wrap fresh slot).1,
          ))
      → (n : ℕ) (p : Poll (Result E A) × conn.Fut A)
      → again step n ((on_poll conn failure wrap p).0, put (on_poll conn failure wrap p).1)
        ≡ (outcome failure wrap (again conn.poll n p).0, put (kept (again conn.poll n p)))
  unfolding on_poll poll_slot under_way
  again-outcome failure wrap fresh put step h zero (ready (ok a), f) = refl
  again-outcome failure wrap fresh put step h zero (ready (err e), f) = refl
  again-outcome failure wrap fresh put step h zero (pending, f) = refl
  again-outcome failure wrap fresh put step h (suc n) (ready (ok a), f) = refl
  again-outcome failure wrap fresh put step h (suc n) (ready (err e), f) = refl
  again-outcome failure wrap fresh put step h (suc n) (pending, f) =
      ap (again step n) (h (some f)) ∙ again-outcome failure wrap fresh put step h n (conn.poll f)

  -- `n + 1` polls at most of the future under way, or else of the new one `f`.
  abbrev pub seen_through :
      {A : Type 0} → ℕ → Option (conn.Fut A) → conn.Fut A → Poll (Result E A) × conn.Fut A
  seen_through n slot f = again conn.poll n (conn.poll (under_way conn slot f))

  -- Each of the four functions, polled for as long as it is not ready, polls one future over and over:
  -- the one under way, or else one that it makes once. What the future gives is what it gives, with a
  -- stream wrapped and a failure turned into its closing error. It leaves that future in its slot if it is
  -- not ready, and an empty slot if it is, so that the next call makes a new one; the rest of the
  -- connection, with the other three slots, stays.
  pub polls-seen_through :
      (n : ℕ) (s : H3Connection conn)
      → (again (poll_open_bidi conn) n (poll_open_bidi conn s) ≡ (
        outcome stream_error bidi_stream
            (seen_through n s.open_bidi_fut (conn.open_bidirectional s.inner)).0,
        record s {
          open_bidi_fut = kept (seen_through n s.open_bidi_fut (conn.open_bidirectional s.inner));
        },
      ))
        × (again (poll_open_send conn) n (poll_open_send conn s) ≡ (
          outcome stream_error send_stream
              (seen_through n s.open_uni_fut (conn.open_unidirectional s.inner)).0,
          record s {
            open_uni_fut = kept (seen_through n s.open_uni_fut (conn.open_unidirectional s.inner));
          },
        ))
        × (again (poll_accept_bidi conn) n (poll_accept_bidi conn s) ≡ (
          outcome conn_closed bidi_stream
              (seen_through n s.accept_bidi_fut (conn.accept_bidirectional s.inner)).0,
          record s {
            accept_bidi_fut =
                kept (seen_through n s.accept_bidi_fut (conn.accept_bidirectional s.inner));
          },
        ))
        × (again (poll_accept_recv conn) n (poll_accept_recv conn s) ≡ (
          outcome conn_closed recv_stream
              (seen_through n s.accept_uni_fut (conn.accept_unidirectional s.inner)).0,
          record s {
            accept_uni_fut =
                kept (seen_through n s.accept_uni_fut (conn.accept_unidirectional s.inner));
          },
        ))
  unfolding poll_open_bidi poll_open_send poll_accept_bidi poll_accept_recv poll_slot
  polls-seen_through n s = (
    again-outcome stream_error bidi_stream (conn.open_bidirectional s.inner)
        (λ slot. record s { open_bidi_fut = slot }) (poll_open_bidi conn) (λ slot. refl) n _,
    again-outcome stream_error send_stream (conn.open_unidirectional s.inner)
        (λ slot. record s { open_uni_fut = slot }) (poll_open_send conn) (λ slot. refl) n _,
    again-outcome conn_closed bidi_stream (conn.accept_bidirectional s.inner)
        (λ slot. record s { accept_bidi_fut = slot }) (poll_accept_bidi conn) (λ slot. refl) n _,
    again-outcome conn_closed recv_stream (conn.accept_unidirectional s.inner)
        (λ slot. record s { accept_uni_fut = slot }) (poll_accept_recv conn) (λ slot. refl) n _,
  )

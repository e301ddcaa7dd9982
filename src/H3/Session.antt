-- ===== src/H3/Session.antt =====
-- navar-h3/src/lib.rs: `H3Session::send_request`, and the body of its response. The crate `h3` is an argument: a request stream is of a
-- type `S`, and its functions change it.
pub mod Sent
pub mod Received
use navar.Base.{Poll, ready, pending, List, [], ◌∷◌, Option, none, some, Result, ok, err, Bytes}
use navar.Body.{Body, Frame, not_ready, item, data_frame, trailers_frame}
use navar.Buf.{Buf}
use navar.Std.Utf8.{Text}

-- `SendRequest` and `RequestStream` of `h3::client`.
pub record Streams (C S H P E : Type 0) : Type 0 where
  pub send_request : C → H → Result E S × C
  pub send_data : S → Bytes → Result E (Unit {0}) × S
  pub finish : S → Result E (Unit {0}) × S
  pub recv_response : S → Result E P × S

pub record H3ResponseBody (S : Type 0) : Type 0 where
  pub stream : S

module _ {C S H P E D : Type 0} (h3 : Streams C S H P E) (b : Buf D) where
  -- `while let Some(frame_res) = body.frame().await`: an error ends it. Of a frame of data its `chunk()`
  -- is sent; `next` is what follows the loop.
  pub on_sent : (S → Result E P × S) → Result E (Unit {0}) × S → Result E P × S
  on_sent next (ok u, s) = next s
  on_sent next (err e, s) = (err e, s)

  unfoldable pub send_frames :
      {E' : Type 0} → (E' → E) → Body D E' → (S → Result E P × S) → S → Result E P × S
  unfolding on_sent
  send_frames into [] next s = next s
  send_frames into (not_ready ∷ body) next s = send_frames into body next s
  send_frames into (item (err e) ∷ body) next s = (err (into e), s)
  send_frames into (item (ok (trailers_frame t)) ∷ body) next s = send_frames into body next s
  send_frames into (item (ok (data_frame d)) ∷ body) next s =
      on_sent (send_frames into body next) (h3.send_data s (b.chunk d))

  -- `stream.finish().await?; stream.recv_response().await?`
  pub finish_request : S → Result E P × S
  unfolding on_sent
  finish_request s = on_sent h3.recv_response (h3.finish s)

  -- `response.map(|_| H3ResponseBody { stream })`
  with_body : Result E P × S → Result E (P × H3ResponseBody S)
  with_body (ok parts, s) = ok (parts, record { stream = s })
  with_body (err e, s) = err e

  -- The response's parts, with the body, which reads the stream, or the error; and the session.
  on_stream :
      {E' : Type 0} → (E' → E) → Body D E' → Result E S × C → Result E (P × H3ResponseBody S) × C
  unfolding with_body
  on_stream into body (err e, c) = (err e, c)
  on_stream into body (ok s, c) = (with_body (send_frames into body finish_request s), c)

  unfoldable pub send_request :
      {E' : Type 0} → (E' → E) → C → H → Body D E' → Result E (P × H3ResponseBody S) × C
  unfolding on_stream
  send_request into c head body = on_stream into body (h3.send_request c head)

-- An error of a response's body, which wraps any error; it is printed as that error, and its source is that
-- error's.
pub record H3Error (E : Type 0) : Type 0 where
  pub inner : E

abbrev pub display : {E : Type 0} → (E → Text) → H3Error E → Text
display fmt e = fmt e.inner

abbrev pub source : {E S : Type 0} → (E → Option S) → H3Error E → Option S
source of_error e = of_error e.inner

-- `H3ResponseBody::poll_frame`
abbrev pub to_frame :
    {N E : Type 0}
    → Buf N
    → Poll (Result E (Option N))
    → Poll (Option (Result (H3Error E) (Frame Bytes)))
to_frame b (ready (ok (some d))) =
    ready (some (ok (data_frame (b.copy_to_bytes d (b.remaining d)))))
to_frame b (ready (ok none)) = ready none
to_frame b (ready (err e)) = ready (some (err (record { inner = e })))
to_frame b pending = pending

unfoldable pub poll_frame :
    {S N E : Type 0}
    → Buf N
    → (S → Poll (Result E (Option N)) × S)
    → H3ResponseBody S
    → Poll (Option (Result (H3Error E) (Frame Bytes))) × H3ResponseBody S
poll_frame b poll_recv_data s =
    (to_frame b (poll_recv_data s.stream).0, record { stream = (poll_recv_data s.stream).1 })

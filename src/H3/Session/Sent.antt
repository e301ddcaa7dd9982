-- ===== src/H3/Session/Sent.antt =====
-- What of a request's body an HTTP/3 session sends.
use navar.Base.{
  ◌≡◌, refl, sym, ap, ◌∙◌, [], ◌∷◌, ◌++◌, append-nil, append_assoc, Result, ok, err, Bytes,
}
use navar.Body.{Body, not_ready, item, data_frame, trailers_frame}
use navar.Buf.{Buf}
use navar.H3.Session.{
  Streams, on_sent, send_frames, finish_request, with_body, on_stream, send_request,
}
use navar.Reader.Pieces.{NeverFails, bytes_of}

-- The first pieces of the frames of data, one after another.
abbrev pub chunks_of : {D E : Type 0} → Buf D → Body D E → Bytes
chunks_of b [] = []
chunks_of b (not_ready ∷ body) = chunks_of b body
chunks_of b (item (err e) ∷ body) = chunks_of b body
chunks_of b (item (ok (trailers_frame h)) ∷ body) = chunks_of b body
chunks_of b (item (ok (data_frame d)) ∷ body) = b.chunk d ++ chunks_of b body

-- Data that is sent with no error is put behind what was sent before.
pub record Records {C S H P E : Type 0} (h3 : Streams C S H P E) : Type 0 where
  pub sent : S → Bytes
  pub accepts : (s : S) (bs : Bytes) → (h3.send_data s bs).0 ≡ ok tt
  pub sent-send_data : (s : S) (bs : Bytes) → sent (h3.send_data s bs).1 ≡ sent s ++ bs

module _ {C S H P E D : Type 0} (h3 : Streams C S H P E) (b : Buf D) (rec : Records h3) where
  accepted :
      (next : S → Result E P × S) (p : Result E (Unit {0}) × S)
      → p.0 ≡ ok tt
      → on_sent h3 b next p ≡ next p.1
  unfolding on_sent
  accepted next (ok u, s) h = refl
  accepted next (err e, s) h = cc

  -- Over a stream that accepts all data, the body of a request that does not fail is sent to its end, and
  -- what is sent of each frame is its first piece.
  pub send_frames-chunks_of :
      {E' : Type 0} (into : E' → E) (body : Body D E') (next : S → Result E P × S) (s : S)
      → NeverFails body
      → (s' : S) × (send_frames h3 b into body next s ≡ next s')
        × (rec.sent s' ≡ rec.sent s ++ chunks_of b body)
  unfolding send_frames
  send_frames-chunks_of into [] next s h = (s, refl, sym (append-nil (rec.sent s)))
  send_frames-chunks_of into (not_ready ∷ body) next s h = send_frames-chunks_of into body next s h
  send_frames-chunks_of into (item (err e) ∷ body) next s h = absurd h
  send_frames-chunks_of into (item (ok (trailers_frame t)) ∷ body) next s h =
      send_frames-chunks_of into body next s h
  send_frames-chunks_of into (item (ok (data_frame d)) ∷ body) next s h =
      let (s', run, kept) = send_frames-chunks_of into body next (h3.send_data s (b.chunk d)).1 h in
      (
        s',
        accepted (send_frames h3 b into body next) (h3.send_data s (b.chunk d))
              (rec.accepts s (b.chunk d))
            ∙ run,
        kept
            ∙ ap (λ t. t ++ chunks_of b body) (rec.sent-send_data s (b.chunk d))
            ∙ append_assoc (rec.sent s) (b.chunk d) (chunks_of b body),
      )

  chunks_of-bytes_of :
      {E' : Type 0}
      → ((d : D) → b.chunk d ≡ b.unread d)
      → (body : Body D E') → chunks_of b body ≡ bytes_of b body
  chunks_of-bytes_of whole [] = refl
  chunks_of-bytes_of whole (not_ready ∷ body) = chunks_of-bytes_of whole body
  chunks_of-bytes_of whole (item (err e) ∷ body) = chunks_of-bytes_of whole body
  chunks_of-bytes_of whole (item (ok (trailers_frame t)) ∷ body) = chunks_of-bytes_of whole body
  chunks_of-bytes_of whole (item (ok (data_frame d)) ∷ body) =
      rw (whole d, chunks_of-bytes_of whole body)

  -- Where the buffers of a body that does not fail lie in one piece, all the body's bytes are sent, in
  -- order, over a stream that accepts all data, and then comes what follows the loop.
  pub send_frames-bytes_of :
      {E' : Type 0} (into : E' → E) (body : Body D E') (next : S → Result E P × S) (s : S)
      → ((d : D) → b.chunk d ≡ b.unread d)
      → NeverFails body
      → (s' : S) × (send_frames h3 b into body next s ≡ next s')
        × (rec.sent s' ≡ rec.sent s ++ bytes_of b body)
  send_frames-bytes_of into body next s whole h =
      let (s', run, kept) = send_frames-chunks_of into body next s h in
      (s', run, kept ∙ ap (λ t. rec.sent s ++ t) (chunks_of-bytes_of whole body))

module _ {C S H P E D : Type 0} (h3 : Streams C S H P E) (b : Buf D) where
  -- A request with no body, whose stream ends well and brings a response.
  pub send_request-no_body :
      {E' : Type 0} (into : E' → E) (c c' : C) (head : H) (s s₁ s₂ : S) (parts : P)
      → h3.send_request c head ≡ (ok s, c')
      → h3.finish s ≡ (ok tt, s₁)
      → h3.recv_response s₁ ≡ (ok parts, s₂)
      → send_request h3 b into c head [] ≡ (ok (parts, record { stream = s₂ }), c')
  unfolding send_request on_stream send_frames finish_request on_sent with_body
  send_request-no_body into c c' head s s₁ s₂ parts opened finished answered =
      rw (opened, finished, answered)

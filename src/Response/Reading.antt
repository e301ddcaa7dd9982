-- ===== src/Response/Reading.antt =====
-- What the helpers that read a whole body give.
use navar.Base.{◌≡◌, refl, ap, ◌∙◌, List, [], ◌∷◌, ◌++◌, Result, ok, err, and_then, Bytes}
use navar.Body.{Body, not_ready, item, data_frame, trailers_frame}
use navar.Buf.{Buf}
use navar.Reader.Pieces.{bytes_of, NeverFails}
use navar.Response.{collect, bytes, text, json, from_bytes, to_chunk, chunks, bytes_stream}
use navar.Std.Utf8.RoundTrip.{from_utf8-encode}
use navar.Std.Utf8.{Text, IsText, encode}

-- The chunks of a stream one after another, or its first error.
abbrev pub concat_ok : {E : Type 0} → List (Result E Bytes) → Result E Bytes
concat_ok [] = ok []
concat_ok (err e ∷ rs) = err e
concat_ok (ok bs ∷ rs) = and_then (concat_ok rs) (λ rest. ok (bs ++ rest))

module _ {N E : Type 0} (b : Buf N) where
  pub collect-NeverFails :
      (body : Body N E) → NeverFails body → collect b body ≡ ok (bytes_of b body)
  collect-NeverFails [] h = refl
  collect-NeverFails (not_ready ∷ body) h = collect-NeverFails body h
  collect-NeverFails (item (err e) ∷ body) h = absurd h
  collect-NeverFails (item (ok (trailers_frame t)) ∷ body) h = collect-NeverFails body h
  collect-NeverFails (item (ok (data_frame d)) ∷ body) h = rw (collect-NeverFails body h)

  -- The chunks of `bytes_stream`, put together, are the bytes that `bytes` gives, and where the body
  -- fails both end in its first error.
  pub concat_ok-bytes_stream : (body : Body N E) → concat_ok (bytes_stream b body) ≡ bytes b body
  unfolding bytes_stream bytes chunks to_chunk
  concat_ok-bytes_stream [] = refl
  concat_ok-bytes_stream (not_ready ∷ body) = concat_ok-bytes_stream body
  concat_ok-bytes_stream (item (err e) ∷ body) = refl
  concat_ok-bytes_stream (item (ok (trailers_frame t)) ∷ body) = concat_ok-bytes_stream body
  concat_ok-bytes_stream (item (ok (data_frame d)) ∷ body) =
      ap (λ r. and_then r (λ rest. ok (b.copy_to_bytes d (b.remaining d) ++ rest)))
        (concat_ok-bytes_stream body)
      ∙ rw (b.copy_to_bytes-unread d)

  -- A body that does not fail and whose bytes are the UTF-8 of a text is read as that text by `text`, and
  -- by `json` as what the parser makes of those bytes.
  pub text-encode :
      {T : Type 0} (from_slice : Bytes → Result E T) (invalid : E) (body : Body N E) (t : Text)
      → NeverFails body
      → IsText t
      → bytes_of b body ≡ encode t
      → (text b invalid body ≡ ok t) × (json b from_slice body ≡ from_slice (encode t))
  unfolding text json bytes from_bytes
  text-encode from_slice invalid body t h chars e = (
    rw (collect-NeverFails body h, e, from_utf8-encode t chars),
    rw (collect-NeverFails body h, e),
  )

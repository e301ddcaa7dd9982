-- ===== src/Response.antt =====
-- src/response_helpers.rs: the helpers of `ResponseExt` that read a whole body, and its stream of chunks.
-- `collect` and `into_data_stream` are of the crate `http_body_util`, and say what its documents say of a
-- body's answers; awaiting polls a body that is not ready again. `sse_stream` and `ndjson_stream` are
-- `SseStream::new` and `NdjsonStream::new`.
pub mod Reading
pub mod Streams
use navar.Base.{List, [], ◌∷◌, ◌++◌, Option, none, some, Result, ok, err, and_then, Bytes}
use navar.Body.{Body, not_ready, item, data_frame, trailers_frame}
use navar.Buf.{Buf}
use navar.Std.Utf8.{Text, from_utf8}

-- All the data of a body, or its first error: `collect().await?` and then `to_bytes()`.
abbrev pub collect : {N E : Type 0} → Buf N → Body N E → Result E Bytes
collect b [] = ok []
collect b (not_ready ∷ body) = collect b body
collect b (item (err e) ∷ body) = err e
collect b (item (ok (trailers_frame h)) ∷ body) = collect b body
collect b (item (ok (data_frame d)) ∷ body) =
    and_then (collect b body) (λ bs. ok (b.unread d ++ bs))

-- The items of `into_data_stream()`: the data of each frame, and the errors.
abbrev pub data_stream : {N E : Type 0} → Body N E → List (Result E N)
data_stream [] = []
data_stream (not_ready ∷ body) = data_stream body
data_stream (item (err e) ∷ body) = err e ∷ data_stream body
data_stream (item (ok (trailers_frame h)) ∷ body) = data_stream body
data_stream (item (ok (data_frame d)) ∷ body) = ok d ∷ data_stream body

module _ {N E : Type 0} (b : Buf N) where
  unfoldable pub bytes : Body N E → Result E Bytes
  bytes body = collect b body

  -- `invalid` is the error that says that the conversion failed.
  from_bytes : E → Option Text → Result E Text
  from_bytes invalid none = err invalid
  from_bytes invalid (some t) = ok t

  unfoldable pub text : E → Body N E → Result E Text
  unfolding bytes from_bytes
  text invalid body = and_then (bytes body) (λ bs. from_bytes invalid (from_utf8 bs))

  unfoldable pub json : {T : Type 0} → (Bytes → Result E T) → Body N E → Result E T
  unfolding bytes
  json from_slice body = and_then (bytes body) from_slice

  -- One item of `bytes_stream`.
  to_chunk : Result E N → Result E Bytes
  to_chunk (ok d) = ok (b.copy_to_bytes d (b.remaining d))
  to_chunk (err e) = err e

  chunks : List (Result E N) → List (Result E Bytes)
  unfolding to_chunk
  chunks [] = []
  chunks (r ∷ rs) = to_chunk r ∷ chunks rs

  unfoldable pub bytes_stream : Body N E → List (Result E Bytes)
  unfolding chunks
  bytes_stream body = chunks (data_stream body)

-- ===== src/Response/Streams.antt =====
-- src/response_helpers.rs: the streams that read the body of a response.
use navar.Body.{Body}
use navar.Buf.{Buf}
use navar.Ndjson.{NdjsonStream}
use navar.Ndjson
use navar.Pool.{Response}
use navar.Sse.{SseStream}
use navar.Sse

module _ {P N E : Type 0} (b : Buf N) where
  abbrev pub sse_stream : Response P (Body N E) → SseStream E
  sse_stream res = Sse.new b res.body

  abbrev pub ndjson_stream : {T : Type 0} → Response P (Body N E) → NdjsonStream T E
  ndjson_stream res = Ndjson.new b res.body

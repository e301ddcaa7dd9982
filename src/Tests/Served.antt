-- ===== src/Tests/Served.antt =====
-- The streams of responses that a client over the pool is given.
use navar.Base.{ℕ, Bool, ◌≡◌, refl, List, [], ◌∷◌, some, true, false, Result, ok, Bytes, arith}
use navar.Body.{Body}
use navar.Buf.{bytes_buf}
use navar.Client.Pooled.{request_kinds, PooledClient, pooled_client}
use navar.Client.Requests.{sending}
use navar.Client.Streams.{get-sse_stream, ndjson_request, ndjson-echo}
use navar.Client.{get}
use navar.Http.{Request}
use navar.Ndjson
use navar.Normalize.{Boxes, normalize}
use navar.Pool.Serving.{pooled, opened}
use navar.Pool.{Kinds, Response, Plugins, Pooled}
use navar.Pool
use navar.Reader.Drive.{drive}
use navar.Request.{
  BoundRequest, BoundRequestBuilder, Next, wait, arrived, ndjson, ndjson_body, ensure_content_type,
  mime_ndjson,
}
use navar.Response.Streams.{sse_stream, ndjson_stream}
use navar.Client.{send_bound}
use navar.Sse.Format.{event_of}
use navar.Sse.{poll_next}
use navar.Tests.Data.{Two, two_buf, boxes, codes}
use navar.Tests.Requests.{TestHead, http, methods, no_frames, add_one, from_http}
use navar.Tests.Sessions.{map}
use navar.Tests.Streams.{
  message, message_body, IsMessage-message, message_bytes, to_vec, from_slice, bools,
}

abbrev kinds : Kinds
kinds = request_kinds TestHead (Body Two ℕ) ℕ ℕ ℕ ℕ ℕ ℕ Two ℕ ℕ

abbrev network : (Request TestHead (Body Two ℕ) → Body Two ℕ) → Plugins kinds
network answer = record {
  uri = λ q. q.head.uri;
  authority = λ u. some u;
  connect = λ log u. ok u;
  handshake = λ log c. ok (c, 7);
  send_request = λ log s q. ok (record { parts = 200; body = answer q });
  missing_authority = 30;
}

-- Every request is answered with an event stream.
abbrev events : Plugins kinds
events = network (λ q. message_body)

get-sse_stream_example :
    (got : Response ℕ (Body Two ℕ)) × (after : Pooled kinds map) × (sending http from_http methods
        boxes add_one no_frames
        (pooled_client boxes add_one map events)
        (get http from_http methods (pooled_client boxes add_one map events) (ok 80))
        (Pool.new boxes add_one map events)
      ≡ (ok got, after))
    × (drive poll_next 5 (sse_stream two_buf got) ≡ some (ok (event_of message) ∷ []))
unfolding Pool.new
get-sse_stream_example =
    get-sse_stream http from_http methods boxes add_one map events boxes add_one no_frames 80
      (Pool.new boxes add_one map events) 80 80 (record { parts = 200; body = message_body })
      (message ∷ []) 5 refl (opened 80 7 refl refl refl) refl tt (IsMessage-message, tt)
      message_bytes (omega arith)

-- Every request is answered with its own body.
abbrev echo : Plugins kinds
echo = network (λ q. q.body)

abbrev boxed : Boxes bytes_buf two_buf
boxed = record { box = λ bs. ([], bs); unread-box = λ bs. refl }

abbrev builder : BoundRequestBuilder (Result ℕ TestHead) (PooledClient boxes add_one map echo)
builder = record {
  inner = ok (record { method = 3; uri = 80; headers = (5, codes "x") ∷ []; extensions = 0 });
  client = pooled_client boxes add_one map echo;
}

abbrev head_with_type : TestHead
head_with_type = record {
  method = 3;
  uri = 80;
  headers = (5, codes "x") ∷ (1, mime_ndjson) ∷ [];
  extensions = 0;
}

abbrev head_built :
    http.head (ensure_content_type http from_http builder mime_ndjson).inner ≡ ok head_with_type
unfolding ensure_content_type
head_built = refl

abbrev held : Pooled kinds map
held = record { pool = (80, 90) ∷ []; log = [] }

abbrev values : List (Next Bool)
values = arrived true ∷ wait ∷ arrived false ∷ []

ndjson-echo_example :
    (r : BoundRequest TestHead (PooledClient boxes add_one map echo) (Body Bytes ℕ))
    × (got : Response ℕ (Body Two ℕ)) × (after : Pooled kinds map) × (ndjson http from_http to_vec
          builder values
        ≡ ok r)
    × (send_bound boxed (λ e. e) (λ body. body) r held ≡ (ok got, after))
    × (drive (Ndjson.poll_next from_slice) 6 (ndjson_stream two_buf got)
        ≡ some (ok true ∷ ok false ∷ []))
unfolding normalize ndjson_body
ndjson-echo_example =
    ndjson-echo http from_http methods boxes add_one map echo bools boxed builder head_with_type
      values held 80 90
      (record {
        parts = 200;
        body =
            (ndjson_request http from_http methods boxes add_one map echo bools boxed head_with_type
              values).body;
      })
      6 refl head_built refl (pooled refl) refl tt refl (omega arith)

-- ===== src/Tests/Requests.antt =====
-- Requests over headers that are a list, and layers of services.
use navar.Base.{
  ℕ, ◌+◌, ◌≡◌, ◌≢◌, refl, sym, ap, Bool-cases, inl, inr, ==_iff, ◌==◌, if◌then◌else◌, List, [], ◌∷◌,
  ◌++◌, Option, none, some, Result, ok, err, and_then, Bytes, length, arith,
}
use navar.Body.{Body, item, not_ready, data_frame, trailers_frame}
use navar.Client.Requests.{sending, reached, methods-reached}
use navar.Client.{Client, Methods, with_service, head, get, post, put, patch, delete}
use navar.Http.{Head, Request, HeaderMaps, HttpBuilder}
use navar.Normalize.{Same, normalize, normalize-Same, bytes_of-normalize}
use navar.Reader.Pieces.{bytes_of}
use navar.Request.ContentType.{ensure_content_type_lem, helpers-answered, answered}
use navar.Request.{
  BoundRequestBuilder, EmptyBody, full, arrived, wait, text, bytes, json, ndjson, ndjson_body,
  ensure_content_type, mime_text, mime_bin, mime_json, mime_ndjson,
}
use navar.Response.Reading.{concat_ok, concat_ok-bytes_stream, text-encode}
use navar.Response
use navar.Service.{
  Service, Middleware, layer, pair, service, wrapped, layers, apply_all, handle-wrapped,
}
use navar.Service
use navar.Std.Utf8.{Text, encode, encode_char}
use navar.Tests.Data.{Two, two_buf, boxes, codes}

abbrev pub Headers : Type 0
Headers = List (ℕ × Text)

abbrev pub get_header : Headers → ℕ → Option Text
get_header [] k = none
get_header ((j, v) ∷ h) k = if j == k then some v else get_header h k

pub get_header-append_new :
    (h : Headers) (k : ℕ) (v : Text)
    → get_header h k ≡ none
    → get_header (h ++ (k, v) ∷ []) k ≡ some v
get_header-append_new [] k v e = rw ((==_iff k k).1 refl)
get_header-append_new ((j, w) ∷ h) k v e = elim (Bool-cases (j == k)) [
  | inl t ↦ let no = rw t at e in cc no
  | inr f ↦ rw f (get_header-append_new h k v (rw f at e))
]

pub get_header-append_other :
    (h : Headers) (k j : ℕ) (v : Text) → j ≢ k → get_header (h ++ (k, v) ∷ []) j ≡ get_header h j
get_header-append_other [] k j v ne = elim (Bool-cases (k == j)) [
  | inl t ↦ absurd (ne (sym ((==_iff k j).0 t)))
  | inr f ↦ rw f
]
get_header-append_other ((i, w) ∷ h) k j v ne = elim (Bool-cases (i == j)) [
  | inl t ↦ rw t
  | inr f ↦ rw f (get_header-append_other h k j v ne)
]

abbrev pub maps : HeaderMaps
maps = record {
  Headers = Headers;
  Name = ℕ;
  Value = Text;
  content_type = 1;
  from_static = λ t. t;
  get = get_header;
  append = λ h k v. h ++ (k, v) ∷ [];
  get-append_new = get_header-append_new;
  get-append_other = get_header-append_other;
}

abbrev pub TestHead : Type 0
TestHead = Head ℕ ℕ Headers ℕ

abbrev pub header_of : Result ℕ TestHead → Result ℕ ℕ → Result ℕ Text → Result ℕ TestHead
header_of b k v =
    and_then b (λ h.
      and_then k (λ k. and_then v (λ v. ok (record h { headers = h.headers ++ (k, v) ∷ [] }))))

abbrev pub headers_of : Result ℕ TestHead → Option Headers
headers_of (ok h) = some h.headers
headers_of (err e) = none

pub headers_of-ok :
    (b : Result ℕ TestHead) (h : TestHead) → b ≡ ok h → headers_of b ≡ some h.headers
headers_of-ok b h e = ap headers_of e

pub headers_of-err : (b : Result ℕ TestHead) (e : ℕ) → b ≡ err e → headers_of b ≡ none
headers_of-err b e h = ap headers_of h

abbrev pub http : HttpBuilder ℕ ℕ ℕ ℕ maps
http = record {
  Builder = Result ℕ TestHead;
  builder = λ method uri.
      and_then uri (λ u. ok (record { method = method; uri = u; headers = []; extensions = 0 }));
  header = header_of;
  extension = λ b f. and_then b (λ h. ok (record h { extensions = f h.extensions }));
  headers_ref = headers_of;
  body = λ b x. and_then b (λ h. ok (record { head = h; body = x }));
  head = λ b. b;
  no_headers = [];
  no_extensions = 0;
  head-builder = λ method uri. refl;
  headers_ref-ok = headers_of-ok;
  headers_ref-err = headers_of-err;
  head-header = λ b k v. refl;
  body-head = λ b x. refl;
}

abbrev start : TestHead
start = record { method = 2; uri = 80; headers = (5, codes "x") ∷ []; extensions = 0 }

abbrev builder : BoundRequestBuilder (Result ℕ TestHead) ℕ
builder = record { inner = ok start; client = 9 }

abbrev to_vec : ℕ → Result ℕ Bytes
to_vec n = if n == 0 then err 4 else ok (n ∷ [])

abbrev pub from_http : ℕ → ℕ
from_http n = n + 100

header_kept :
    (h' : TestHead) × (http.head (ensure_content_type http from_http builder (codes "a/b")).inner
      ≡ ok h')
    × (get_header h'.headers 1 ≡ some (codes "a/b"))
    × (get_header h'.headers 5 ≡ some (codes "x"))
    × (h' ≡ record start { headers = h'.headers })
header_kept = ensure_content_type_lem http from_http builder (codes "a/b") 5 start refl (λ h. cc)

helpers-answered_example :
    (text http from_http builder (codes "hi")
      ≡ answered http from_http builder mime_text (full (encode (codes "hi"))))
    × (bytes http from_http builder (7 ∷ [])
        ≡ answered http from_http builder mime_bin (full (7 ∷ [])))
    × (json http from_http to_vec builder 3
        ≡ and_then (to_vec 3) (λ x. answered http from_http builder mime_json (full x)))
    × (ndjson http from_http to_vec builder (arrived 3 ∷ wait ∷ [])
        ≡ answered http from_http builder mime_ndjson (ndjson_body to_vec (arrived 3 ∷ wait ∷ [])))
helpers-answered_example =
    helpers-answered http from_http to_vec builder (codes "hi") (7 ∷ []) 3 (arrived 3 ∷ wait ∷ [])

abbrev Sent : Type 0
Sent = Request TestHead (Body Two ℕ)

-- A service that counts its requests and answers with the method.
abbrev counter : Service ℕ Sent (Result ℕ ℕ)
counter q n = (ok q.head.method, n + 1)

abbrev twice : Service ℕ Sent (Result ℕ ℕ) → Service ℕ Sent (Result ℕ ℕ)
twice next q n = next q (next q n).1

abbrev tens : Service ℕ Sent (Result ℕ ℕ) → Service ℕ Sent (Result ℕ ℕ)
tens next q n = next q (n + 10)

abbrev client : Client ℕ Sent (Result ℕ ℕ)
client = with_service (wrapped (pair (layer twice) (layer tens)) counter)

abbrev pub methods : Methods ℕ
methods = record {
  method_head = 1;
  method_get = 2;
  method_post = 3;
  method_put = 4;
  method_patch = 5;
  method_delete = 6;
}

abbrev pub no_frames : EmptyBody → Body Two ℕ
no_frames x = []

abbrev pub add_one : ℕ → ℕ
add_one n = n + 1

abbrev at_client :
    BoundRequestBuilder (Result ℕ TestHead) (Client ℕ Sent (Result ℕ ℕ)) → ℕ → Result ℕ ℕ × ℕ
at_client = sending http from_http methods boxes add_one no_frames client

abbrev expected : ℕ → Result ℕ ℕ → ℕ → Result ℕ ℕ × ℕ
expected = reached http from_http methods boxes add_one no_frames client

methods-reached_example :
    (at_client (head http from_http methods client (ok 80)) 0 ≡ expected 1 (ok 80) 0)
    × (at_client (get http from_http methods client (ok 80)) 0 ≡ expected 2 (ok 80) 0)
    × (at_client (post http from_http methods client (ok 80)) 0 ≡ expected 3 (ok 80) 0)
    × (at_client (put http from_http methods client (ok 80)) 0 ≡ expected 4 (ok 80) 0)
    × (at_client (patch http from_http methods client (ok 80)) 0 ≡ expected 5 (ok 80) 0)
    × (at_client (delete http from_http methods client (ok 80)) 0 ≡ expected 6 (ok 80) 0)
methods-reached_example =
    methods-reached http from_http methods boxes add_one no_frames client (ok 80) 0

handle-wrapped_example :
    (Service.handle (
        Service.new
          (wrapped (layer twice) (Service.handle (Service.new (wrapped (layer tens) counter)))))
      ≡ apply_all (layers (layer twice) ++ layers (layer tens)) counter)
    × (Service.handle (Service.new (wrapped (pair (layer twice) (layer tens)) counter))
        ≡ apply_all (layers (layer twice) ++ layers (layer tens)) counter)
    × (Service.handle (Service.new (service counter)) ≡ counter)
handle-wrapped_example = handle-wrapped (layer twice) (layer tens) counter

abbrev pub body : Body Two ℕ
body =
    item (ok (data_frame (codes "h", codes "i"))) ∷ not_ready ∷ item (ok (trailers_frame [])) ∷ []

poll_for_poll : Same boxes add_one body (normalize boxes add_one body)
poll_for_poll = normalize-Same boxes add_one body

normalized_bytes : bytes_of two_buf (normalize boxes add_one body) ≡ codes "hi"
normalized_bytes = bytes_of-normalize boxes add_one body

concat_ok-bytes_stream_example :
    concat_ok (Response.bytes_stream two_buf body) ≡ Response.bytes two_buf body
concat_ok-bytes_stream_example = concat_ok-bytes_stream two_buf body

abbrev size : Bytes → Result ℕ ℕ
size bs = ok (length bs)

pub body_bytes : bytes_of two_buf body ≡ encode (codes "hi")
unfolding encode encode_char
body_bytes = refl

text-encode_example :
    (Response.text two_buf 3 body ≡ ok (codes "hi"))
    × (Response.json two_buf size body ≡ size (encode (codes "hi")))
text-encode_example =
    text-encode two_buf size 3 body (codes "hi") tt (inl (omega arith), (inl (omega arith), tt))
      body_bytes

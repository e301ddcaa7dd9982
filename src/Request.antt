-- ===== src/Request.antt =====
-- src/bound_request.rs and src/bound_request/json.rs: the request builder that is bound to a client, and
-- its helpers for bodies. `serde_json::to_vec` and `http` are arguments; `E` is `anyhow::Error`.
pub mod ContentType
pub mod RoundTrip
pub mod Getters
use navar.Base.{
  ℕ, Bool, true, false, List, [], ◌∷◌, ◌++◌, Option, none, some, Result, ok, err, and_then, Bytes,
  if◌then◌else◌,
}
use navar.Body.{Body, Answer, not_ready, item, data_frame}
use navar.Http.{Head, Request, HeaderMaps, HttpBuilder}
use navar.Std.Utf8.{Text, encode}

-- A `Full` body holds all its bytes; an `Empty` one holds none.
pub data FullBody : Type 0 where
  full : Bytes → FullBody

pub data EmptyBody : Type 0 where
  empty : EmptyBody

-- The buffers of a body with no frames: there are none, so their functions are never called.
pub data NeverBuf : Type 0 where

abbrev pub never_remaining : NeverBuf → ℕ
never_remaining d = elim d [ ]

abbrev pub never_chunk : NeverBuf → Bytes
never_chunk d = elim d [ ]

abbrev pub never_advance : NeverBuf → ℕ → NeverBuf
never_advance d n = elim d [ ]

pub record BoundRequest (H C B : Type 0) : Type 0 where
  pub request : Request H B
  pub client : C

-- The media types of the helpers, as texts of ASCII.
abbrev pub mime_text : Text
mime_text =
    b't' ∷ b'e' ∷ b'x' ∷ b't' ∷ b'/' ∷ b'p' ∷ b'l' ∷ b'a' ∷ b'i' ∷ b'n' ∷ b';' ∷ b' ' ∷ b'c' ∷ b'h'
    ∷ b'a' ∷ b'r' ∷ b's' ∷ b'e' ∷ b't' ∷ b'=' ∷ b'u' ∷ b't' ∷ b'f' ∷ b'-' ∷ b'8' ∷ []

abbrev pub mime_bin : Text
mime_bin =
    b'a' ∷ b'p' ∷ b'p' ∷ b'l' ∷ b'i' ∷ b'c' ∷ b'a' ∷ b't' ∷ b'i' ∷ b'o' ∷ b'n' ∷ b'/' ∷ b'o' ∷ b'c'
    ∷ b't' ∷ b'e' ∷ b't' ∷ b'-' ∷ b's' ∷ b't' ∷ b'r' ∷ b'e' ∷ b'a' ∷ b'm' ∷ []

abbrev pub mime_json : Text
mime_json =
    b'a' ∷ b'p' ∷ b'p' ∷ b'l' ∷ b'i' ∷ b'c' ∷ b'a' ∷ b't' ∷ b'i' ∷ b'o' ∷ b'n' ∷ b'/' ∷ b'j' ∷ b's'
    ∷ b'o' ∷ b'n' ∷ []

abbrev pub mime_ndjson : Text
mime_ndjson =
    b'a' ∷ b'p' ∷ b'p' ∷ b'l' ∷ b'i' ∷ b'c' ∷ b'a' ∷ b't' ∷ b'i' ∷ b'o' ∷ b'n' ∷ b'/' ∷ b'x' ∷ b'-'
    ∷ b'n' ∷ b'd' ∷ b'j' ∷ b's' ∷ b'o' ∷ b'n' ∷ []

-- The answers of a `Stream` of values.
pub data Next (T : Type 0) : Type 0 where
  wait : Next T
  arrived : T → Next T

-- The body of `ndjson`: a frame for each value, its serialisation and a newline.
unfoldable pub ndjson_body : {T E : Type 0} → (T → Result E Bytes) → List (Next T) → Body Bytes E
ndjson_body to_vec [] = []
ndjson_body to_vec (wait ∷ ts) = not_ready ∷ ndjson_body to_vec ts
ndjson_body to_vec (arrived t ∷ ts) =
    item (and_then (to_vec t) (λ buffer. ok (data_frame (buffer ++ b'\n' ∷ []))))
    ∷ ndjson_body to_vec ts

pub record BoundRequestBuilder (B C : Type 0) : Type 0 where
  pub inner : B
  pub client : C

abbrev pub map_err : {F E A : Type 0} → (F → E) → Result F A → Result E A
map_err f (ok a) = ok a
map_err f (err e) = err (f e)

abbrev either : {E A R : Type 0} → Result E A → (A → R) → (E → R) → R
either (ok a) f g = f a
either (err e) f g = g e

-- `Option::is_none_or`
abbrev is_none_or : {A : Type 0} → Option A → (A → Bool) → Bool
is_none_or none test = true
is_none_or (some a) test = test a

abbrev is_none : {A : Type 0} → Option A → Bool
is_none none = true
is_none (some a) = false

module _ {Method Uri Ext F E C : Type 0} {m : HeaderMaps} (http : HttpBuilder Method Uri Ext F m)
    (from_http : F → E) where
  unfoldable pub new : C → Method → Result F Uri → BoundRequestBuilder http.Builder C
  new client method uri = record { inner = http.builder method uri; client = client }

  unfoldable pub header :
      BoundRequestBuilder http.Builder C
      → Result F m.Name
      → Result F m.Value
      → BoundRequestBuilder http.Builder C
  header b key value = record b { inner = http.header b.inner key value }

  unfoldable pub extension :
      BoundRequestBuilder http.Builder C → (Ext → Ext) → BoundRequestBuilder http.Builder C
  extension b insert = record b { inner = http.extension b.inner insert }

  unfoldable pub body :
      {B : Type 0}
      → BoundRequestBuilder http.Builder C
      → B
      → Result E (BoundRequest (Head Method Uri m.Headers Ext) C B)
  body b x =
      and_then (map_err from_http (http.body b.inner x))
        (λ request. ok (record { request = request; client = b.client }))

  unfoldable pub build :
      BoundRequestBuilder http.Builder C
      → Result E (BoundRequest (Head Method Uri m.Headers Ext) C EmptyBody)
  build b =
      and_then (map_err from_http (http.body b.inner empty))
        (λ request. ok (record { request = request; client = b.client }))

  unfoldable pub ensure_content_type :
      BoundRequestBuilder http.Builder C → m.Value → BoundRequestBuilder http.Builder C
  ensure_content_type b value =
      if is_none_or (http.headers_ref b.inner) (λ headers. is_none (m.get headers m.content_type))
      then record b { inner = http.header b.inner (ok m.content_type) (ok value) }
      else b

  unfoldable pub text :
      BoundRequestBuilder http.Builder C
      → Text
      → Result E (BoundRequest (Head Method Uri m.Headers Ext) C FullBody)
  unfolding body ensure_content_type
  text b t = body (ensure_content_type b (m.from_static mime_text)) (full (encode t))

  unfoldable pub bytes :
      BoundRequestBuilder http.Builder C
      → Bytes
      → Result E (BoundRequest (Head Method Uri m.Headers Ext) C FullBody)
  unfolding body ensure_content_type
  bytes b bs = body (ensure_content_type b (m.from_static mime_bin)) (full bs)

  unfoldable pub json :
      {T : Type 0}
      → (T → Result E Bytes)
      → BoundRequestBuilder http.Builder C
      → T
      → Result E (BoundRequest (Head Method Uri m.Headers Ext) C FullBody)
  unfolding body ensure_content_type
  json to_vec b d =
      and_then (to_vec d) (λ bs. body (ensure_content_type b (m.from_static mime_json)) (full bs))

  unfoldable pub ndjson :
      {T : Type 0}
      → (T → Result E Bytes)
      → BoundRequestBuilder http.Builder C
      → List (Next T)
      → Result E (BoundRequest (Head Method Uri m.Headers Ext) C (Body Bytes E))
  unfolding body ensure_content_type ndjson_body
  ndjson to_vec b stream =
      body (ensure_content_type b (m.from_static mime_ndjson)) (ndjson_body to_vec stream)

  -- `BoundRequestBuilder::send`; `client_send` is `Client::send`, and `fail` returns an error.
  unfoldable pub send :
      {R : Type 0}
      → (E → R)
      → (C → Request (Head Method Uri m.Headers Ext) EmptyBody → R)
      → BoundRequestBuilder http.Builder C
      → R
  unfolding build
  send fail client_send b = either (build b) (λ r. client_send r.client r.request) fail

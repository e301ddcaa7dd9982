-- ===== src/Request/ContentType.antt =====
-- What the body helpers of the request builder send.
use navar.Base.{
  List, Option, none, some, Result, ok, and_then, Bytes, ◌≡◌, ◌≢◌, refl, inl, inr, arith,
  Result-cases, Option-cases,
}
use navar.Http.{Head, HeaderMaps, HttpBuilder}
use navar.Request.{
  full, BoundRequest, BoundRequestBuilder, Next, body, ensure_content_type, text, bytes, json,
  ndjson, ndjson_body, map_err, mime_text, mime_bin, mime_json, mime_ndjson,
}
use navar.Std.Utf8.{Text, encode}

abbrev get_or : {A : Type 0} → Option A → A → A
get_or none b = b
get_or (some a) b = a

-- A content type that is there stays; else `value` is put behind the other headers.
module _ {Method Uri Ext : Type 0} (m : HeaderMaps) where
  pub with_content_type : Head Method Uri m.Headers Ext → m.Value → Head Method Uri m.Headers Ext
  with_content_type h value = elim (m.get h.headers m.content_type) [
    | some v ↦ h
    | none ↦ record h { headers = m.append h.headers m.content_type value }
  ]

  -- The content type is there then, and no other header differs.
  get-with_content_type :
      (h : Head Method Uri m.Headers Ext) (value : m.Value) (j : m.Name)
      → j ≢ m.content_type
      → (m.get (with_content_type h value).headers m.content_type
          ≡ some (get_or (m.get h.headers m.content_type) value))
        × (m.get (with_content_type h value).headers j ≡ m.get h.headers j)
  unfolding with_content_type
  get-with_content_type h value j ne = elim (Option-cases (m.get h.headers m.content_type)) [
    | inl e ↦
        rw (e, with_content_type)
          (
            m.get-append_new h.headers m.content_type value e,
            m.get-append_other h.headers m.content_type j value ne,
          )
    | inr (v, e) ↦ rw (e, with_content_type) (e, refl)
  ]

  only_headers :
      (h : Head Method Uri m.Headers Ext) (value : m.Value)
      → with_content_type h value ≡ record h { headers = (with_content_type h value).headers }
  unfolding with_content_type
  only_headers h value = elim (Option-cases (m.get h.headers m.content_type)) [
    | inl e ↦ rw (e, with_content_type)
    | inr (v, e) ↦ rw (e, with_content_type)
  ]

module _ {Method Uri Ext F E C : Type 0} {m : HeaderMaps} (http : HttpBuilder Method Uri Ext F m)
    (from_http : F → E) where
  head-ensure_content_type :
      (b : BoundRequestBuilder http.Builder C) (value : m.Value)
      → http.head (ensure_content_type http from_http b value).inner
        ≡ and_then (http.head b.inner) (λ h. ok (with_content_type m h value))
  unfolding ensure_content_type with_content_type
  head-ensure_content_type b value = elim (Result-cases (http.head b.inner)) [
    | inl (h, e) ↦ elim (Option-cases (m.get h.headers m.content_type)) [
      | inl missing ↦
          rw
            (
              http.headers_ref-ok b.inner h e,
              missing,
              http.head-header b.inner m.content_type value,
              e,
            )
            (rw (missing, with_content_type))
      | inr (v, there) ↦
          rw (http.headers_ref-ok b.inner h e, there, e) (rw (there, with_content_type))
    ]
    | inr (x, e) ↦
        rw (http.headers_ref-err b.inner x e, http.head-header b.inner m.content_type value, e)
  ]

  client-ensure_content_type :
      (b : BoundRequestBuilder http.Builder C) (value : m.Value)
      → (ensure_content_type http from_http b value).client ≡ b.client
  unfolding ensure_content_type
  client-ensure_content_type b value = ground arith

  -- A builder with no error has, once the content type is ensured, the content type that it had, or
  -- `value` where it had none; its other headers, its method, its URI and its extensions stay.
  pub ensure_content_type_lem :
      (b : BoundRequestBuilder http.Builder C) (value : m.Value) (j : m.Name)
      (h : Head Method Uri m.Headers Ext)
      → http.head b.inner ≡ ok h
      → j ≢ m.content_type
      → (h' : Head Method Uri m.Headers Ext) × (http.head
            (ensure_content_type http from_http b value).inner
          ≡ ok h')
        × (m.get h'.headers m.content_type ≡ some (get_or (m.get h.headers m.content_type) value))
        × (m.get h'.headers j ≡ m.get h.headers j)
        × (h' ≡ record h { headers = h'.headers })
  ensure_content_type_lem b value j h e ne =
      let laws = get-with_content_type m h value j ne in
      (
        with_content_type m h value,
        rw (head-ensure_content_type b value, e),
        laws.0,
        laws.1,
        only_headers m h value,
      )

  -- What a helper with the body `x` makes: the builder's own error, or the request of the builder's head
  -- with the content type ensured.
  pub answered :
      {B : Type 0}
      → BoundRequestBuilder http.Builder C
      → Text
      → B
      → Result E (BoundRequest (Head Method Uri m.Headers Ext) C B)
  answered b mime x = map_err from_http (
      and_then (http.head b.inner) (λ h. ok (record {
        request = record { head = with_content_type m h (m.from_static mime); body = x };
        client = b.client;
      })))

  body-answered :
      {B : Type 0} (b : BoundRequestBuilder http.Builder C) (mime : Text) (x : B)
      → body http from_http (ensure_content_type http from_http b (m.from_static mime)) x
        ≡ answered b mime x
  unfolding body answered
  body-answered b mime x =
      rw
        (
          http.body-head (ensure_content_type http from_http b (m.from_static mime)).inner x,
          head-ensure_content_type b (m.from_static mime),
          client-ensure_content_type b (m.from_static mime),
        )
        (elim (Result-cases (http.head b.inner)) [ inl (h, e) ↦ rw e | inr (x', e) ↦ rw e ])

  -- Each helper gives the builder's error, where it carries one, or else the request of the builder's
  -- head with its own body and, where no content type was set, its own media type; `json` first gives
  -- the error of its serialiser.
  pub helpers-answered :
      {T : Type 0} (to_vec : T → Result E Bytes) (b : BoundRequestBuilder http.Builder C) (t : Text)
      (bs : Bytes) (d : T) (ts : List (Next T))
      → (text http from_http b t ≡ answered b mime_text (full (encode t)))
        × (bytes http from_http b bs ≡ answered b mime_bin (full bs))
        × (json http from_http to_vec b d
            ≡ and_then (to_vec d) (λ x. answered b mime_json (full x)))
        × (ndjson http from_http to_vec b ts ≡ answered b mime_ndjson (ndjson_body to_vec ts))
  unfolding text bytes json ndjson
  helpers-answered to_vec b t bs d ts = (
    body-answered b mime_text (full (encode t)),
    body-answered b mime_bin (full bs),
    elim (Result-cases (to_vec d)) [
      | inl (x, e) ↦ rw e (body-answered b mime_json (full x))
      | inr (x, e) ↦ rw e
    ],
    body-answered b mime_ndjson (ndjson_body to_vec ts),
  )

-- ===== src/Client/Streams.antt =====
-- The streams of a response, read by the user of a client over the pool.
use navar.Base.{ℕ, ◌+◌, ◌<◌, ◌≡◌, ap, ◌∙◌, List, map, some, Result, ok, Bytes, arith, length}
use navar.Body.{Body}
use navar.Buf.{Buf, bytes_buf}
use navar.Client.Pooled.{request_kinds, PooledClient, pooled_client}
use navar.Client.Requests.{sending, reached, methods-reached}
use navar.Client.{Client, Methods, get, send_bound}
use navar.Client
use navar.Http.{Head, Request, HeaderMaps, HttpBuilder}
use navar.Ndjson.Stream.{items_in, drive-new_items}
use navar.Ndjson
use navar.Normalize.{Boxes, normalize, bytes_of-normalize, NeverFails-normalize, length-normalize}
use navar.Pool.Serving.{Serving, handle-Serving}
use navar.Pool.{DashMap, Response, Plugins, Pooled, handle}
use navar.Reader.Drive.{drive}
use navar.Reader.Pieces.{bytes_of, NeverFails}
use navar.Request.{
  BoundRequest, BoundRequestBuilder, EmptyBody, empty, Next, ndjson_body, ndjson,
  ensure_content_type, mime_ndjson,
}
use navar.Request as Building
use navar.Request.RoundTrip.{Codec, values_of, items_in-body, length-map_ok}
use navar.Response.Streams.{sse_stream, ndjson_stream}
use navar.Service
use navar.Sse.Format.{Message, AllMessages, print_all, event_of}
use navar.Sse.RoundTrip.{drive-print_all}
use navar.Sse.{poll_next}

module _ {Method Uri Ext F E : Type 0} {m : HeaderMaps} (http : HttpBuilder Method Uri Ext F m)
    (from_http : F → E) (methods : Methods Method) {N : Type 0} {n : Buf N}
    {Authority Conn Session Driver P D' E' : Type 0} {b' : Buf D'} (boxes' : Boxes b' n)
    (into' : E' → E) (d : DashMap Authority Session)
    (p : Plugins (
      request_kinds
        (Head Method Uri m.Headers Ext)
        (Body N E)
        Uri
        Authority
        Conn
        Session
        Driver
        P
        D'
        E'
        E)) where
  abbrev PooledState : Type 0
  PooledState =
      Pooled
        (request_kinds (Head Method Uri m.Headers Ext) (Body N E) Uri Authority Conn Session Driver
          P D' E' E)
        d

  module _ {D E₀ : Type 0} {b : Buf D} (boxes : Boxes b n) (into : E₀ → E)
      (frames : EmptyBody → Body D E₀) where
    -- What the session is given for `client.get(uri).send()`.
    abbrev pub get_request : Uri → Request (Head Method Uri m.Headers Ext) (Body N E)
    get_request uri = record {
      head = record {
        method = methods.method_get;
        uri = uri;
        headers = http.no_headers;
        extensions = http.no_extensions;
      };
      body = normalize boxes into (frames empty);
    }

    sent_get :
        (uri : Uri) (w : PooledState)
        → sending http from_http methods boxes into frames
            (pooled_client boxes' into' d p)
            (get http from_http methods (pooled_client boxes' into' d p) (ok uri))
            w
          ≡ handle boxes' into' d p (get_request uri) w
    unfolding reached Client.new Service.handle Service.new Service.into_service
    sent_get uri w =
        (methods-reached http from_http methods boxes into frames (pooled_client boxes' into' d p)
          (ok uri) w).1

    -- `client.get(uri).send().await?.sse_stream()`: where a session serves the request, pooled or opened for
    -- it, and answers with a body that does not fail and whose bytes list messages, cut into frames and
    -- pieces anywhere, the stream, polled often enough, gives exactly the events of those messages, in order,
    -- and ends. Of each message the identifier, the name and the lines of data are to be characters on one
    -- line, with no white space at either end, and the first line of the data is not to be empty.
    pub get-sse_stream :
        (uri : Uri) (w : PooledState) (a : Authority) (s : Session) {log : _}
        (res : Response P (Body D' E')) (ms : List Message) (fuel : ℕ)
        → p.authority (p.uri (get_request uri)) ≡ some a
        → Serving d p w (get_request uri) a s log
        → p.send_request log s (get_request uri) ≡ ok res
        → NeverFails res.body
        → AllMessages ms
        → bytes_of b' res.body ≡ print_all ms
        → length ms + length res.body < fuel
        → (got : Response P (Body N E)) × (after : PooledState) × (sending http from_http methods
              boxes into frames
              (pooled_client boxes' into' d p)
              (get http from_http methods (pooled_client boxes' into' d p) (ok uri))
              w
            ≡ (ok got, after))
          × (drive poll_next fuel (sse_stream n got) ≡ some (map ok (map event_of ms)))
    get-sse_stream uri w a s res ms fuel h serving answered whole all spelled enough =
        let (after, handled) =
          handle-Serving boxes' into' d p w (get_request uri) a s res h serving answered in
        (
          record { parts = res.parts; body = normalize boxes' into' res.body },
          after,
          sent_get uri w ∙ handled,
          drive-print_all n (normalize boxes' into' res.body) ms fuel
              (NeverFails-normalize boxes' into' res.body whole) all
              (bytes_of-normalize boxes' into' res.body ∙ spelled)
              (omega (arith, length-normalize boxes' into' res.body, enough)),
        )

  module _ {T : Type 0} {to_vec : T → Result E Bytes} {from_slice : Bytes → Result E T}
      (c : Codec to_vec from_slice) (boxes : Boxes bytes_buf n) where
    -- What the session is given for a request with a body of `ndjson`.
    abbrev pub ndjson_request :
        Head Method Uri m.Headers Ext
        → List (Next T)
        → Request (Head Method Uri m.Headers Ext) (Body N E)
    ndjson_request h ts = record {
      head = h;
      body = normalize boxes (λ e. e) (ndjson_body to_vec ts);
    }

    ndjson_built :
        (x : BoundRequestBuilder http.Builder (PooledClient boxes' into' d p))
        (h : Head Method Uri m.Headers Ext) (ts : List (Next T))
        → http.head (ensure_content_type http from_http x (m.from_static mime_ndjson)).inner ≡ ok h
        → ndjson http from_http to_vec x ts
          ≡ ok (record {
            request = record { head = h; body = ndjson_body to_vec ts };
            client = (ensure_content_type http from_http x (m.from_static mime_ndjson)).client;
          })
    unfolding ndjson Building.body
    ndjson_built x h ts head =
        let inner = (ensure_content_type http from_http x (m.from_static mime_ndjson)).inner in
        rw (http.body-head inner (ndjson_body to_vec ts), head)

    client-ensure_content_type :
        {C : Type 0} (x : BoundRequestBuilder http.Builder C) (value : m.Value)
        → (ensure_content_type http from_http x value).client ≡ x.client
    unfolding ensure_content_type
    client-ensure_content_type x value = ground arith

    items_in-echoed :
        (ts : List (Next T)) (body : Body D' E')
        → bytes_of b' body ≡ bytes_of n (normalize boxes (λ e. e) (ndjson_body {E = E} to_vec ts))
        → items_in from_slice (bytes_of n (normalize boxes' into' body)) ≡ map ok (values_of ts)
    items_in-echoed ts body echoes =
        ap (items_in from_slice) (
          bytes_of-normalize boxes' into' body
          ∙ echoes
          ∙ bytes_of-normalize boxes (λ e. e) (ndjson_body {E = E} to_vec ts))
        ∙ items_in-body c ts

    -- `builder.ndjson(stream)?.send().await?.ndjson_stream()` with a builder of this client: where values
    -- are written on one line each and read back from it, the builder carries no error, and a session
    -- serves the request, pooled or opened for it, and answers with a body that does not fail and echoes
    -- the bytes of the request, cut into frames and pieces anywhere, the stream gives exactly the values
    -- that were sent, in order, and ends.
    pub ndjson-echo :
        (x : BoundRequestBuilder http.Builder (PooledClient boxes' into' d p))
        (h : Head Method Uri m.Headers Ext) (ts : List (Next T)) (w : PooledState) (a : Authority)
        (s : Session) {log : _} (res : Response P (Body D' E')) (fuel : ℕ)
        → x.client ≡ pooled_client boxes' into' d p
        → http.head (ensure_content_type http from_http x (m.from_static mime_ndjson)).inner ≡ ok h
        → p.authority (p.uri (ndjson_request h ts)) ≡ some a
        → Serving d p w (ndjson_request h ts) a s log
        → p.send_request log s (ndjson_request h ts) ≡ ok res
        → NeverFails res.body
        → bytes_of b' res.body ≡ bytes_of n (ndjson_request h ts).body
        → length (values_of ts) + length res.body < fuel
        → (r : BoundRequest
            (Head Method Uri m.Headers Ext)
            (PooledClient boxes' into' d p)
            (Body Bytes E))
          × (got : Response P (Body N E)) × (after : PooledState) × (ndjson http from_http to_vec x
                ts
              ≡ ok r)
          × (send_bound boxes (λ e. e) (λ body. body) r w ≡ (ok got, after))
          × (drive (Ndjson.poll_next from_slice) fuel (ndjson_stream n got)
              ≡ some (map ok (values_of ts)))
    unfolding send_bound Client.send Client.new Service.handle Service.new Service.into_service
    ndjson-echo x h ts w a s res fuel client head auth serving answered whole echoes enough =
        let (after, handled) =
          handle-Serving boxes' into' d p w (ndjson_request h ts) a s res auth serving answered in
        let all : items_in from_slice (bytes_of n (normalize boxes' into' res.body))
            ≡ map ok (values_of ts) =
          items_in-echoed ts res.body echoes in
        (
          record {
            request = record { head = h; body = ndjson_body to_vec ts };
            client = (ensure_content_type http from_http x (m.from_static mime_ndjson)).client;
          },
          record { parts = res.parts; body = normalize boxes' into' res.body },
          after,
          ndjson_built x h ts head,
          ap (λ cl. (Service.handle cl.pipeline (ndjson_request h ts) w))
                (client-ensure_content_type x (m.from_static mime_ndjson) ∙ client)
              ∙ handled,
          drive-new_items from_slice n (normalize boxes' into' res.body) fuel
                (NeverFails-normalize boxes' into' res.body whole)
                (omega (
                  arith,
                  ap length all,
                  length-map_ok c (values_of ts),
                  length-normalize boxes' into' res.body,
                  enough,
                ))
              ∙ ap some all,
        )

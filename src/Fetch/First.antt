-- ===== src/Fetch/First.antt =====
-- The whole program on one command: `exec_request` with a client that `Client::new` makes over the pool.
use navar.Base.{◌≡◌, refl, ◌∙◌, List, [], ◌∷◌, Option, none, some, Result, ok}
use navar.Body.{Body}
use navar.Buf.{Buf}
use navar.Client.{Client, Methods, request}
use navar.Client
use navar.Fetch.Prints.{exec_request-prints}
use navar.Fetch.{parts_line, body_line, add_headers, with_header, send_built, exec_request}
use navar.Http.{Head, Request, HeaderMaps, HttpBuilder}
use navar.Normalize.{Boxes, normalize, bytes_of-normalize, NeverFails-normalize}
use navar.Client.Pooled.{request_kinds, PooledClient, pooled_client}
use navar.Pool.First.{opening, handle_first}
use navar.Pool.{DashMap, Kinds, Event, Response, connected, sent, Plugins, Pooled, handle}
use navar.Pool
use navar.Reader.Pieces.{bytes_of, NeverFails}
use navar.Request.{BoundRequestBuilder, EmptyBody, empty}
use navar.Request as Building
use navar.Service
use navar.Std.Utf8.{Text, IsText, encode}

module _ {Method Uri Ext F E : Type 0} {m : HeaderMaps} (http : HttpBuilder Method Uri Ext F m)
    (from_http : F → E) (methods : Methods Method) (name_of : Text → Result F m.Name)
    (value_of : Text → Result F m.Value) {D N E₀ : Type 0} {b : Buf D} {n : Buf N}
    (boxes : Boxes b n) (into : E₀ → E) (frames : EmptyBody → Body D E₀)
    {Authority Conn Session Driver P D' E' : Type 0} {b' : Buf D'} (boxes' : Boxes b' n)
    (into' : E' → E) (d : DashMap Authority Session)
    (p : Plugins (
      request_kinds
        (Head Method Uri m.Headers Ext)
        (Body N E)
        Uri
        Authority
        Conn
        Session
        Driver
        P
        D'
        E'
        E)) where
  -- The builder of a command keeps its client.
  client-with_header :
      {C : Type 0} (x : BoundRequestBuilder http.Builder C) (key : Text) (value : Option Text)
      → (with_header http from_http methods name_of value_of x key value).client ≡ x.client
  unfolding with_header Building.header
  client-with_header x key none = refl
  client-with_header x key (some value) = refl

  client-add_headers :
      {C : Type 0} (headers : List Text) (x : BoundRequestBuilder http.Builder C)
      → (add_headers http from_http methods name_of value_of x headers).client ≡ x.client
  unfolding add_headers
  client-add_headers [] x = refl
  client-add_headers (h ∷ hs) x = client-add_headers hs _ ∙ client-with_header x _ _

  -- The request that a head, with no body, becomes on its way to the session.
  abbrev pub on_the_way :
      Head Method Uri m.Headers Ext → Request (Head Method Uri m.Headers Ext) (Body N E)
  on_the_way h = record { head = h; body = normalize boxes into (frames empty) }

  sent_by :
      (x : BoundRequestBuilder http.Builder (PooledClient boxes' into' d p))
      (h : Head Method Uri m.Headers Ext)
      (w : Pooled
        (request_kinds
          (Head Method Uri m.Headers Ext)
          (Body N E)
          Uri
          Authority
          Conn
          Session
          Driver
          P
          D'
          E'
          E)
        d)
      → x.client ≡ (pooled_client boxes' into' d p)
      → http.head x.inner ≡ ok h
      → send_built http from_http methods name_of value_of boxes into frames x w
        ≡ handle boxes' into' d p (on_the_way h) w
  unfolding send_built Building.send Building.build Client.send Client.new Service.handle
      Service.new Service.into_service
  sent_by x h w client head = rw (http.body-head x.inner empty, head, client)

  -- The first command to an authority, with a URI and headers that are well formed: where connecting and
  -- the handshake succeed and the session answers with a body that does not fail and whose bytes are the
  -- UTF-8 of a text, the command prints the parts of that answer and the text, and it has connected once,
  -- shaken hands once, spawned the driver, pooled the session and sent its request, in this order.
  pub exec_request-first :
      (method : Method) (uri : Uri) (headers : List Text) (h : Head Method Uri m.Headers Ext)
      (a : Authority) (conn : Conn) (s : Session) (driver : Driver) (res : Response P (Body D' E'))
      (t : Text)
      → http.head
          (add_headers http from_http methods name_of value_of
            (request http from_http methods (pooled_client boxes' into' d p) method (ok uri))
            headers).inner
        ≡ ok h
      → p.authority (p.uri (on_the_way h)) ≡ some a
      → p.connect [] (p.uri (on_the_way h)) ≡ ok conn
      → p.handshake (connected (p.uri (on_the_way h)) (ok conn) ∷ []) conn ≡ ok (s, driver)
      → p.send_request (opening p (on_the_way h) a conn s driver []) s (on_the_way h) ≡ ok res
      → NeverFails res.body
      → IsText t
      → bytes_of b' res.body ≡ encode t
      → exec_request http from_http methods name_of value_of boxes into frames
          (pooled_client boxes' into' d p)
          method
          uri
          headers
          (Pool.new boxes' into' d p)
        ≡ (
          (parts_line res.parts ∷ body_line t ∷ [], none),
          record {
            pool = d.insert d.empty a s;
            log = sent s (on_the_way h) (ok res) ∷ opening p (on_the_way h) a conn s driver [];
          },
        )
  unfolding Pool.new request Building.new
  exec_request-first method uri headers h a conn s driver res t head auth reached shook answered
        whole chars spelled =
      exec_request-prints http from_http methods name_of value_of boxes into frames
        (pooled_client boxes' into' d p) method uri headers (Pool.new boxes' into' d p) _
        (record { parts = res.parts; body = normalize boxes' into' res.body }) t
        (sent_by _ h (Pool.new boxes' into' d p) (client-add_headers headers _) head
          ∙ handle_first boxes' into' d p (Pool.new boxes' into' d p) a (on_the_way h) conn s driver
              res (d.entry-empty a) auth reached shook answered)
        (NeverFails-normalize boxes' into' res.body whole) chars
        (bytes_of-normalize boxes' into' res.body ∙ spelled)

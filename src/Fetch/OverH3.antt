-- ===== src/Fetch/OverH3.antt =====
-- The whole program on a command over Iroh and HTTP/3, from the command line to the request stream, and
-- back to what is printed.
use navar.Base.{◌≡◌, ap, ◌∙◌, List, [], ◌∷◌, Option, none, some, Result, ok, ready}
use navar.Body.{Body}
use navar.Buf.{Buf, bytes_buf}
use navar.Client.Pooled.{pooled_client}
use navar.Client.{Methods, request}
use navar.Fetch.First.{exec_request-first}
use navar.Fetch.Main.{Config, exec_new, returned, Execs, main}
use navar.Fetch.Main.Schemes.{main-iroh_h3}
use navar.Fetch.{Line, parts_line, body_line, iroh_h3_name, add_headers}
use navar.H3.Connect as Connect
use navar.H3.Handshake.{H3App, H3Session, h3_app, handshake-made}
use navar.H3.Session.Received.{body_of, answers-body_of}
use navar.H3.Session.Sent.{send_request-no_body}
use navar.H3.Session.{H3Error, send_request}
use navar.Http.{Head, HeaderMaps, HttpBuilder}
use navar.Iroh.{Quic, IrohError, IrohTransport, IrohConnection}
use navar.Iroh
use navar.Normalize.{Boxes, normalize, normalize-nil}
use navar.Plugins.OverIroh.{
  h3_over_iroh, Futures, H3World, iroh_h3_kinds, iroh_h3, over, h3_response,
}
use navar.Plugins.Reaching.{connect_now-reached}
use navar.Pool.{DashMap, Event, connected, Plugins}
use navar.Pool.First.{opening}
use navar.Reader.Pieces.{NeverFails}
use navar.Request.{EmptyBody, empty}
use navar.Std.Utf8.{Text, IsText, encode}
use navar.Tokio.Config.{Rustls}

module _ {Method Uri Ext F E : Type 0} {m : HeaderMaps} (http : HttpBuilder Method Uri Ext F m)
    (from_http : F → E) (methods : Methods Method) (name_of : Text → Result F m.Name)
    (value_of : Text → Result F m.Value) {D N E₀ : Type 0} {b : Buf D} {n : Buf N}
    (boxes : Boxes b n) (into : E₀ → E) (frames : EmptyBody → Body D E₀)
    {Authority P Endpoint EndpointId Conn Snd Rcv I E₁ Sender S Driver N' F' : Type 0} {b' : Buf N'}
    (boxes' : Boxes bytes_buf n) (into' : H3Error F' → E) (d : DashMap Authority (H3Session Sender))
    (from_iroh : IrohError E₁ → E) (host : Uri → Option Text) (authority : Uri → Option Authority)
    (missing : E) {futures : Futures (IrohError E₁)}
    (world : H3World Endpoint EndpointId Conn Snd Rcv I futures
      (iroh_h3_kinds Conn (Head Method Uri m.Headers Ext) N Uri Authority P E Sender Driver F')
      b'
      Sender
      S
      Driver
      (Head Method Uri m.Headers Ext)
      P
      F'
      E) where
  abbrev pub plugins :
      IrohTransport Endpoint
      → H3App
      → Plugins
          (iroh_h3_kinds Conn (Head Method Uri m.Headers Ext) N Uri Authority P E Sender Driver F')
  plugins = iroh_h3 n from_iroh host (λ h. h.uri) authority missing world

  abbrev pub exec_h3 : IrohTransport Endpoint → H3App → Config Method Uri → List (Line P) × Option E
  exec_h3 transport app args =
      exec_new http from_http methods name_of value_of boxes into frames boxes' into' d
        (plugins transport app) args

  -- What has been done once the connection is there, and once the session is pooled, newest first.
  abbrev pub dialed :
      Head Method Uri m.Headers Ext
      → Conn
      → List (
          Event (
            iroh_h3_kinds Conn
              (Head Method Uri m.Headers Ext)
              N
              Uri
              Authority
              P
              E
              Sender
              Driver
              F'))
  dialed h conn = connected h.uri (ok (record { inner = conn })) ∷ []

  abbrev pub pooled_log :
      Endpoint
      → Head Method Uri m.Headers Ext
      → Authority
      → Conn
      → Driver
      → Sender
      → List (
          Event (
            iroh_h3_kinds Conn
              (Head Method Uri m.Headers Ext)
              N
              Uri
              Authority
              P
              E
              Sender
              Driver
              F'))
  pooled_log endpoint h a conn driver sender =
      opening (plugins (Iroh.new endpoint (iroh_h3_name ∷ [])) h3_app)
        (record { head = h; body = [] }) a (record { inner = conn }) (record { sender = sender })
        (record { driver = driver }) []

  -- The request of the command, which has no body.
  sent_alone :
      (log : List (
        Event (
          iroh_h3_kinds Conn (Head Method Uri m.Headers Ext) N Uri Authority P E Sender Driver F')))
      (sender sender' : Sender) (h : Head Method Uri m.Headers Ext) (s s₁ s₂ : S) (parts : P)
      → frames empty ≡ []
      → (world.net log).streams.send_request sender h ≡ (ok s, sender')
      → (world.net log).streams.finish s ≡ (ok tt, s₁)
      → (world.net log).streams.recv_response s₁ ≡ (ok parts, s₂)
      → send_request
          (world.net log).streams
          n
          (λ e. e)
          sender
          h
          (normalize boxes into (frames empty))
        ≡ (ok (parts, record { stream = s₂ }), sender')
  sent_alone log sender sender' h s s₁ s₂ parts no_frames opened finished answered =
      ap (send_request (world.net log).streams n (λ e. e) sender h)
        (ap (normalize boxes into) no_frames ∙ normalize-nil boxes into)
      ∙ send_request-no_body (world.net log).streams n (λ e. e) sender sender' h s s₁ s₂ parts
          opened finished answered

  -- The command with a URI of the scheme `iroh+h3`, whose host names a peer and which has an authority, and
  -- with headers that are well formed: where an endpoint is bound and comes online, the peer is reached with
  -- the protocol `iroh+h3`, HTTP/3's handshake succeeds, and the stream of the request, which has no body,
  -- ends well and brings a response, and then the UTF-8 of a text with no error, the command prints the parts
  -- of the response and that text, and ends well.
  pub main-over_h3 :
      {Connector Roots Cfg : Type 0} (execs : Execs Connector Endpoint Method Uri P E)
      (rustls : Rustls Roots Cfg Connector) (scheme_str : Uri → Option Text)
      (args : Config Method Uri) (endpoint : Endpoint) (h : Head Method Uri m.Headers Ext)
      (a : Authority) (name : Text) (id : EndpointId) (conn : Conn) (driver : Driver)
      (sender sender' : Sender) (s s₁ s₂ : S) (parts : P) (t : Text)
      → http.head
          (add_headers http from_http methods name_of value_of
            (request http from_http methods
              (pooled_client boxes' into' d
                (plugins (Iroh.new endpoint (iroh_h3_name ∷ [])) h3_app))
              args.method
              (ok args.uri))
            args.headers).inner
        ≡ ok h
      → scheme_str args.uri ≡ some iroh_h3_name
      → frames empty ≡ []
      → host h.uri ≡ some name
      → authority h.uri ≡ some a
      → (world.quic []).from_str name ≡ some id
      → (world.quic []).connect endpoint id iroh_h3_name ≡ ready (ok conn)
      → (world.net (dialed h conn)).client_new (
          Connect.new (h3_over_iroh (world.quic (dialed h conn)) futures) (record { inner = conn }))
        ≡ ok (driver, sender)
      → (world.net (pooled_log endpoint h a conn driver sender)).streams.send_request sender h
        ≡ (ok s, sender')
      → (world.net (pooled_log endpoint h a conn driver sender)).streams.finish s ≡ (ok tt, s₁)
      → (world.net (pooled_log endpoint h a conn driver sender)).streams.recv_response s₁
        ≡ (ok parts, s₂)
      → NeverFails (
          body_of
            (world.net (pooled_log endpoint h a conn driver sender)).receives
            (record { stream = s₂ }))
      → IsText t
      → (world.net (pooled_log endpoint h a conn driver sender)).receives.coming s₂ ≡ encode t
      → main
          (record execs { over_h3 = exec_h3 })
          rustls
          (ready (ok endpoint))
          (λ ep. ready tt)
          scheme_str
          args
        ≡ ready (returned (parts_line parts ∷ body_line t ∷ []) none)
  main-over_h3 execs rustls scheme_str args endpoint h a name id conn driver sender sender' s s₁ s₂
        parts t head scheme no_frames named auth key reached made opened finished answered whole
        chars spelled =
      let p = plugins (Iroh.new endpoint (iroh_h3_name ∷ [])) h3_app in
      let log = pooled_log endpoint h a conn driver sender in
      let reply = answers-body_of (world.net log).receives (record { stream = s₂ }) whole in
      main-iroh_h3 (record execs { over_h3 = exec_h3 }) rustls endpoint scheme_str args scheme
      ∙ ap (λ r. ready (returned r.0.0 r.0.1))
          (exec_request-first http from_http methods name_of value_of boxes into frames boxes' into'
            d p args.method args.uri args.headers h a (record { inner = conn })
            (record { sender = sender }) (record { driver = driver })
            (record {
              parts = parts;
              body = body_of (world.net log).receives (record { stream = s₂ });
            })
            t head auth
            (ap (over from_iroh) (
              connect_now-reached (world.quic []) (world.prompt []) host _ h.uri name id conn named
                key reached))
            (handshake-made (h3_over_iroh (world.quic (dialed h conn)) futures)
              (world.net (dialed h conn)).client_new h3_app (record { inner = conn }) driver sender
              made)
            (ap (h3_response (world.net log).receives)
              (sent_alone log sender sender' h s s₁ s₂ parts no_frames opened finished answered))
            whole chars (reply.1 ∙ spelled))

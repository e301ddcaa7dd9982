-- ===== src/Plugins/Encryption.antt =====
-- Which requests are sent over encrypted streams, by the base service over Tokio and hyper.
use navar.Base.{ℕ, ap, ◌≡◌, subst, sym, ◌∙◌, Bool, false, List, [], ◌∷◌, Option, some, Result, ok}
use mathlib.Core.List.{Memᴰ}
use navar.Body.{Body}
use navar.Buf.{Buf}
use navar.Http.{Request}
use navar.Hyper.{HyperApp, HyperSender, Hyper, handshake}
use navar.Normalize.{Boxes}
use navar.Plugins.Http2.{handshake_opened}
use navar.Plugins.Stack.{tokio_hyper_kinds, over_tokio, tokio_hyper}
use navar.Pool.First.{handle_opens}
use navar.Pool.Origin.{sent-Origin}
use navar.Pool.Tasks.Origin.{Reach-Origin}
use navar.Pool.Tasks.{System, Reach}
use navar.Pool.Reuse.{handle-run}
use navar.Pool.{
  Kinds, DashMap, Event, Response, connected, sent, Plugins, Pooled, new, send_through, handle, run,
}
use navar.Std.Utf8.{Text}
use navar.Tokio.Connecting.{is_tls, connect-is_https, open_bidirectional-is_some}
use navar.Tokio.Streams.{Sockets}
use navar.Tokio.{
  TransportError, UriParts, Net, TokioConnection, TokioTransport, TokioIo, is_https, connect,
  open_bidirectional,
}

module _ {Addr Connector Name Tcp Tls Wr TlsWr Rd TlsRd I S1 S2 D H N P Data BodyError E : Type 0}
    {n : Buf N} (same : Boxes n n)
    (net : List (
        Event (
          tokio_hyper_kinds Addr Connector Name S1 S2 D
            (Request H (Body N (TransportError E)))
            P
            Data
            BodyError
            E))
      → Net Addr Connector Name Tcp Tls E)
    (sockets : Sockets Tcp Tls Wr TlsWr Rd TlsRd I)
    (hyper : List (
        Event (
          tokio_hyper_kinds Addr Connector Name S1 S2 D
            (Request H (Body N (TransportError E)))
            P
            Data
            BodyError
            E))
      → Hyper
          (List (
            Event (
              tokio_hyper_kinds Addr Connector Name S1 S2 D
                (Request H (Body N (TransportError E)))
                P
                Data
                BodyError
                E)))
          (TokioConnection Addr Connector Name)
          (TokioIo Tcp Tls)
          S1
          S2
          D
          (Request H (Body N (TransportError E)))
          (Response P (Body Data BodyError))
          (TransportError E))
    (transport : TokioTransport Connector) (app : HyperApp) (uri : H → UriParts)
    (authority : UriParts → Option Text) (missing : TransportError E) {b : Buf Data}
    (boxes : Boxes b n) (into : BodyError → TransportError E)
    (d : DashMap Text (HyperSender S1 S2)) where
  abbrev kinds : Kinds
  kinds =
      tokio_hyper_kinds Addr Connector Name S1 S2 D (Request H (Body N (TransportError E))) P Data
        BodyError E

  abbrev pub plugins : Plugins kinds
  plugins = tokio_hyper same net sockets hyper transport app uri authority missing

  -- The session `s` shook hands over a stream that was opened, which was encrypted or not.
  pub record Carried (s : HyperSender S1 S2) (encrypted : Bool) : Type 0 where
    pub log : List (Event kinds)
    pub conn : TokioConnection Addr Connector Name
    pub io : TokioIo Tcp Tls
    pub driver : D
    pub opened : open_bidirectional (net log) conn ≡ ok io
    pub shook :
        handshake (over_tokio (net log) sockets (hyper log)) app.protocol conn ≡ ok (s, driver)
    pub secured : is_tls io ≡ encrypted

  Carried-is_https :
      (before after : List (Event kinds)) (u : UriParts)
      (conn : TokioConnection Addr Connector Name) (s : HyperSender S1 S2) (driver : D)
      → connect (net before) transport u ≡ ok conn
      → handshake (over_tokio (net after) sockets (hyper after)) app.protocol conn ≡ ok (s, driver)
      → Carried s (is_https u)
  Carried-is_https before after u conn s driver reached shook =
      let (io, opened, chosen) =
        handshake_opened (over_tokio (net after) sockets (hyper after)) app.protocol conn s driver
          shook in
      record {
        log = after;
        conn = conn;
        io = io;
        driver = driver;
        opened = opened;
        shook = shook;
        secured =
            open_bidirectional-is_some (net after) conn io opened
            ∙ connect-is_https (net before) transport u conn reached;
      }

  -- After any requests to a new service, of which those to one authority are all of scheme `https` or all
  -- not, every one of them that was sent went through a session which shook hands over a stream that is
  -- encrypted exactly when the request's URI is of the scheme `https`.
  pub sent-is_tls :
      (reqs : List kinds.Req) (q : kinds.Req) (s : HyperSender S1 S2)
      (r : Result (TransportError E) (Response P (Body Data BodyError)))
      → ((q₁ q₂ : kinds.Req)
          → Memᴰ q₁ reqs
          → Memᴰ q₂ reqs
          → authority (uri q₁.head) ≡ authority (uri q₂.head)
          → is_https (uri q₁.head) ≡ is_https (uri q₂.head))
      → Memᴰ q reqs
      → Memᴰ (sent s q r) (run boxes into d plugins reqs (new boxes into d plugins)).log
      → Carried s (is_https (uri q.head))
  sent-is_tls reqs q s r one_scheme among m =
      let (a, h, o) = sent-Origin boxes into d plugins reqs s q m in
      subst (Carried s) (one_scheme o.req q o.among among (o.authority ∙ sym h))
        (Carried-is_https o.before o.after (uri o.req.head) o.conn s o.driver o.connects o.shakes)

  -- Whatever requests run at the same time, in whichever order, and whichever of their futures are dropped:
  -- if those to one authority are all of scheme `https` or all not, then every request that is sent goes
  -- through a session which shook hands over a stream that is encrypted exactly when the request's URI is
  -- of the scheme `https`.
  pub Reach-is_tls :
      (shard : Text → ℕ) {threads count : ℕ} (reqs : ℕ → kinds.Req)
      {s : System boxes into d plugins shard}
      → ((i j : ℕ)
          → authority (uri (reqs i).head) ≡ authority (uri (reqs j).head)
          → is_https (uri (reqs i).head) ≡ is_https (uri (reqs j).head))
      → Reach boxes into d plugins shard threads count reqs s
      → (i : ℕ) (x : HyperSender S1 S2)
        (r : Result (TransportError E) (Response P (Body Data BodyError)))
      → Memᴰ (sent x (reqs i) r) s.shared.service.log
      → Carried x (is_https (uri (reqs i).head))
  Reach-is_tls shard reqs one_scheme reached i x r m =
      let (a, h, o) = Reach-Origin boxes into d plugins shard reqs x (reqs i) reached m in
      let (j, e) = o.among in
      subst (Carried x)
        (ap (λ q. is_https (uri q.head)) (sym e)
          ∙ one_scheme j i (ap (λ q. authority (uri q.head)) e ∙ o.authority ∙ sym h))
        (Carried-is_https o.before o.after (uri o.req.head) o.conn x o.driver o.connects o.shakes)

  -- The pool does not tell schemes apart: where the first request, which is not of the scheme `https`, has
  -- opened a session, every later request to its authority goes through that session, over a plain stream,
  -- also one whose URI is of the scheme `https`.
  pub https-over_plain :
      (q₁ q₂ : kinds.Req) (reqs : List kinds.Req) (a : Text)
      (conn : TokioConnection Addr Connector Name) (s : HyperSender S1 S2) (driver : D)
      → authority (uri q₁.head) ≡ some a
      → authority (uri q₂.head) ≡ some a
      → is_https (uri q₁.head) ≡ false
      → plugins.connect [] (uri q₁.head) ≡ ok conn
      → plugins.handshake (connected (uri q₁.head) (ok conn) ∷ []) conn ≡ ok (s, driver)
      → Carried s false
        × (handle boxes into d plugins q₂
              (run boxes into d plugins (q₁ ∷ reqs) (new boxes into d plugins))
            ≡ send_through boxes into d plugins s q₂
                (run boxes into d plugins (q₁ ∷ reqs) (new boxes into d plugins)))
  unfolding new run
  https-over_plain q₁ q₂ reqs a conn s driver h₁ h₂ plain reached shook =
      let st : Pooled kinds d = (handle boxes into d plugins q₁ (new boxes into d plugins)).1 in
      (
        subst (Carried s) plain (Carried-is_https [] _ (uri q₁.head) conn s driver reached shook),
        handle-run boxes into d plugins reqs st a s q₂
            (handle_opens boxes into d plugins (new boxes into d plugins) a q₁ conn s driver
              (d.entry-empty a) h₁ reached shook)
            h₂,
      )

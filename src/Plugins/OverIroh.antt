-- ===== src/Plugins/OverIroh.antt =====
-- The base service over Iroh, with hyper and with HTTP/3: `Client::new(IrohTransport, HyperApp, ..)` and
-- `Client::new(IrohTransport, H3App, ..)`, with what the network answers by what has happened so far.
use navar.Base.{List, Option, Result, ok, err, Poll, Bytes}
use navar.Body.{Body}
use navar.Buf.{Buf, bytes_buf}
use navar.Client.Pooled.{request_kinds}
use navar.H3.Connect.{H3Connection}
use navar.H3.Connect as Connect
use navar.H3.Handshake.{H3App, H3Session, H3Driver}
use navar.H3.Handshake
use navar.H3.Session.Received.{Receives, body_of}
use navar.H3.Session.{Streams, H3Error, H3ResponseBody}
use navar.H3.Session
use navar.Http.{Request}
use navar.Hyper.{HyperApp, HyperSender, Hyper}
use navar.Hyper
use navar.Iroh.{
  Quic, IrohError, IrohTransport, IrohConnection, IrohSendStream, IrohRecvStream, IrohBidiStream,
  connection, bidi_stream,
}
use navar.Normalize.{Boxes}
use navar.Plugins.Reaching.{Prompt, connect_now, open_now}
use navar.Pool.{Kinds, Event, Response, Plugins}
use navar.Std.Utf8.{Text}
use navar.Transport.{Awaited}

-- Futures in boxes, which are polled.
pub record Futures (E : Type 0) : Type 1 where
  pub Fut : Type 0 → Type 0
  pub poll : {A : Type 0} → Fut A → Poll (Result E A) × Fut A
  pub boxed : {A : Type 0} → Awaited E A → Fut A

-- HTTP/3's adapter over the connections of Iroh.
abbrev pub h3_over_iroh :
    {Endpoint EndpointId Conn Snd Rcv I E : Type 0}
    → Quic Endpoint EndpointId Conn Snd Rcv I E
    → Futures (IrohError E)
    → Connect.Connection
        (IrohConnection Conn)
        (IrohBidiStream Snd Rcv)
        (IrohSendStream Snd)
        (IrohRecvStream Rcv)
        (IrohError E)
h3_over_iroh quic futures = record {
  Fut = futures.Fut;
  poll = futures.poll;
  open_bidirectional = λ c. futures.boxed ((connection quic).open_bidirectional c);
  open_unidirectional = λ c. futures.boxed ((connection quic).open_unidirectional c);
  accept_bidirectional = λ c. futures.boxed ((connection quic).accept_bidirectional c);
  accept_unidirectional = λ c. futures.boxed ((connection quic).accept_unidirectional c);
}

abbrev pub over : {E E' A : Type 0} → (E → E') → Result E A → Result E' A
over into (ok a) = ok a
over into (err e) = err (into e)

-- What `send_request` of a session gives, as the base service has it.
abbrev pub h3_response :
    {S N E F P C : Type 0} {b : Buf N}
    → Receives S N F b
    → Result E (P × H3ResponseBody S) × C
    → Result E (Response P (Body Bytes (H3Error F)))
h3_response receives (ok (parts, body), c) =
    ok (record { parts = parts; body = body_of receives body })
h3_response receives (err e, c) = err e

-- HTTP/3's session over Iroh: requests through the crate's streams, and the bodies that they receive.
pub record H3Net {Conn Snd Rcv I E Endpoint EndpointId : Type 0}
    (quic : Quic Endpoint EndpointId Conn Snd Rcv I E) (futures : Futures (IrohError E))
    (Sender S Driver Head P N F E' : Type 0) (b : Buf N) : Type 0 where
  pub client_new : H3Connection (h3_over_iroh quic futures) → Result E' (Driver × Sender)
  pub streams : Streams Sender S Head P E'
  pub receives : Receives S N F b

-- What the network answers by what has happened so far.
pub record H3World (Endpoint EndpointId Conn Snd Rcv I : Type 0) {E : Type 0}
    (futures : Futures (IrohError E)) (k : Kinds) {N : Type 0} (b : Buf N)
    (Sender S Driver Head P F E' : Type 0) : Type 0 where
  pub quic : List (Event k) → Quic Endpoint EndpointId Conn Snd Rcv I E
  pub prompt : (log : List (Event k)) → Prompt (quic log)
  pub net : (log : List (Event k)) → H3Net (quic log) futures Sender S Driver Head P N F E' b

-- `H` is the head of a request, and `N` what its body has.
abbrev pub iroh_h3_kinds : (Conn H N Uri Authority P E Sender Driver F : Type 0) → Kinds
iroh_h3_kinds Conn H N Uri Authority P E Sender Driver F =
    request_kinds H (Body N E) Uri Authority (IrohConnection Conn) (H3Session Sender)
      (H3Driver Driver) P Bytes (H3Error F) E

abbrev pub iroh_hyper_kinds : (Conn H N Uri Authority P E S1 S2 D Data BodyError : Type 0) → Kinds
iroh_hyper_kinds Conn H N Uri Authority P E S1 S2 D Data BodyError =
    request_kinds H (Body N E) Uri Authority (IrohConnection Conn) (HyperSender S1 S2) D P Data
      BodyError E

-- Hyper over the connections and the streams of Iroh.
abbrev pub over_iroh :
    {W Endpoint EndpointId Conn Snd Rcv I E₀ S1 S2 D Q R E : Type 0} (from_iroh : IrohError E₀ → E)
    (quic : Quic Endpoint EndpointId Conn Snd Rcv I E₀)
    → Prompt quic
    → Hyper W (IrohConnection Conn) (IrohBidiStream Snd Rcv) S1 S2 D Q R E
    → Hyper W (IrohConnection Conn) (IrohBidiStream Snd Rcv) S1 S2 D Q R E
over_iroh from_iroh quic prompt hyper = record hyper {
  open_bidirectional = λ c. over from_iroh (open_now quic prompt c);
  alpn_protocol = (bidi_stream quic).alpn_protocol;
}

-- `uri` and `authority` read a request and its URI; `E` is the error of the service.
module _ {Endpoint EndpointId Conn Snd Rcv I E₀ E H N Uri Authority P : Type 0} (n : Buf N)
    (from_iroh : IrohError E₀ → E) (host : Uri → Option Text) (uri : H → Uri)
    (authority : Uri → Option Authority) (missing : E) where
  abbrev pub iroh_h3 :
      {Sender S Driver N' F : Type 0} {b : Buf N'} {futures : Futures (IrohError E₀)}
      → H3World Endpoint EndpointId Conn Snd Rcv I futures
          (iroh_h3_kinds Conn H N Uri Authority P E Sender Driver F)
          b
          Sender
          S
          Driver
          H
          P
          F
          E
      → IrohTransport Endpoint
      → H3App
      → Plugins (iroh_h3_kinds Conn H N Uri Authority P E Sender Driver F)
  iroh_h3 {futures = futures} world transport app = record {
    uri = λ q. uri q.head;
    authority = authority;
    connect =
        λ log u. over from_iroh (connect_now (world.quic log) (world.prompt log) host transport u);
    handshake = λ log c.
        Handshake.handshake (h3_over_iroh (world.quic log) futures) (world.net log).client_new app
          c;
    send_request = λ log s q.
        h3_response (world.net log).receives
          (Session.send_request (world.net log).streams n (λ e. e) s.sender q.head q.body);
    missing_authority = missing;
  }

  abbrev pub iroh_hyper :
      {S1 S2 D Data BodyError : Type 0}
      → Boxes n n
      → let k : Kinds = iroh_hyper_kinds Conn H N Uri Authority P E S1 S2 D Data BodyError in
        (quic : List (Event k) → Quic Endpoint EndpointId Conn Snd Rcv I E₀)
        → ((log : List (Event k)) → Prompt (quic log))
        → (List (Event k)
            → Hyper
                (List (Event k))
                (IrohConnection Conn)
                (IrohBidiStream Snd Rcv)
                S1
                S2
                D
                (Request H (Body N E))
                (Response P (Body Data BodyError))
                E)
        → IrohTransport Endpoint
        → HyperApp
        → Plugins k
  iroh_hyper boxes quic prompt hyper transport app = record {
    uri = λ q. uri q.head;
    authority = authority;
    connect = λ log u. over from_iroh (connect_now (quic log) (prompt log) host transport u);
    handshake = λ log c.
        Hyper.handshake (over_iroh from_iroh (quic log) (prompt log) (hyper log)) app.protocol c;
    send_request = λ log s q.
        (Hyper.send_request boxes (λ e. e) (over_iroh from_iroh (quic log) (prompt log) (hyper log))
          s q log).0;
    missing_authority = missing;
  }

-- ===== src/Plugins/Stack.antt =====
-- The base service over Tokio and hyper: `Client::new(TokioTransport, HyperApp, ..)`, with what the network
-- answers by what has happened so far.
use navar.Base.{List, Option}
use navar.Body.{Body}
use navar.Buf.{Buf}
use navar.Http.{Request}
use navar.Hyper.{HyperApp, HyperSender, Hyper, handshake, send_request}
use navar.Normalize.{Boxes}
use navar.Pool.{Kinds, Event, Response, Plugins}
use navar.Std.Utf8.{Text}
use navar.Tokio.Streams.{Sockets, alpn_protocol}
use navar.Tokio.{
  TransportError, UriParts, Net, TokioConnection, TokioTransport, TokioIo, connect,
  open_bidirectional,
}

-- Sessions by authority, which is a text; `Q` is a request.
abbrev pub tokio_hyper_kinds : (Addr Connector Name S1 S2 D Q P Data BodyError E : Type 0) → Kinds
tokio_hyper_kinds Addr Connector Name S1 S2 D Q P Data BodyError E = record {
  Uri = UriParts;
  Authority = Text;
  Conn = TokioConnection Addr Connector Name;
  Session = HyperSender S1 S2;
  Driver = D;
  Req = Q;
  Parts = P;
  Data = Data;
  BodyError = BodyError;
  Error = TransportError E;
}

-- Hyper over the connections and the streams of Tokio.
abbrev pub over_tokio :
    {W Addr Connector Name Tcp Tls Wr TlsWr Rd TlsRd I S1 S2 D Q R E : Type 0}
    → Net Addr Connector Name Tcp Tls E
    → Sockets Tcp Tls Wr TlsWr Rd TlsRd I
    → Hyper W (TokioConnection Addr Connector Name) (TokioIo Tcp Tls) S1 S2 D Q R (TransportError E)
    → Hyper W (TokioConnection Addr Connector Name) (TokioIo Tcp Tls) S1 S2 D Q R (TransportError E)
over_tokio net sockets hyper = record hyper {
  open_bidirectional = open_bidirectional net;
  alpn_protocol = alpn_protocol sockets;
}

-- `uri` and `authority` read a request and its URI.
abbrev pub tokio_hyper :
    {Addr Connector Name Tcp Tls Wr TlsWr Rd TlsRd I S1 S2 D H N P Data BodyError E : Type 0}
    {n : Buf N}
    → Boxes n n
    → let k : Kinds =
        tokio_hyper_kinds Addr Connector Name S1 S2 D
          (Request H (Body N (TransportError E)))
          P
          Data
          BodyError
          E in
      (List (Event k) → Net Addr Connector Name Tcp Tls E)
      → Sockets Tcp Tls Wr TlsWr Rd TlsRd I
      → (List (Event k)
          → Hyper
              (List (Event k))
              k.Conn
              (TokioIo Tcp Tls)
              S1
              S2
              D
              k.Req
              (Response P (Body Data BodyError))
              k.Error)
      → TokioTransport Connector
      → HyperApp
      → (H → UriParts)
      → (UriParts → Option Text)
      → TransportError E
      → Plugins k
tokio_hyper boxes net sockets hyper transport app uri authority missing = record {
  uri = λ q. uri q.head;
  authority = authority;
  connect = λ log u. connect (net log) transport u;
  handshake = λ log conn. handshake (over_tokio (net log) sockets (hyper log)) app.protocol conn;
  send_request =
      λ log s q. (send_request boxes (λ e. e) (over_tokio (net log) sockets (hyper log)) s q log).0;
  missing_authority = missing;
}

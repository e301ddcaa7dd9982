-- ===== src/Client/Pooled.antt =====
-- The client that `Client::new` makes: its pipeline is a `BaseService` and nothing else.
use navar.Base.{Result}
use navar.Body.{Body}
use navar.Buf.{Buf}
use navar.Client.{Client}
use navar.Client
use navar.Http.{Request}
use navar.Normalize.{Boxes}
use navar.Pool.{DashMap, Kinds, Response, Plugins, Pooled, handle}

-- The kinds of a base service that takes requests with normalised bodies.
abbrev pub request_kinds :
    (H B Uri Authority Conn Session Driver Parts Data BodyError Error : Type 0) → Kinds
request_kinds H B Uri Authority Conn Session Driver Parts Data BodyError Error = record {
  Uri = Uri;
  Authority = Authority;
  Conn = Conn;
  Session = Session;
  Driver = Driver;
  Req = Request H B;
  Parts = Parts;
  Data = Data;
  BodyError = BodyError;
  Error = Error;
}

module _ {H Uri Authority Conn Session Driver P D E' E N : Type 0} {b : Buf D} {n : Buf N}
    (boxes : Boxes b n) (into : E' → E) (d : DashMap Authority Session)
    (p : Plugins (request_kinds H (Body N E) Uri Authority Conn Session Driver P D E' E)) where
  abbrev pub PooledClient : Type 0
  PooledClient =
      Client (Pooled (request_kinds H (Body N E) Uri Authority Conn Session Driver P D E' E) d)
        (Request H (Body N E)) (Result E (Response P (Body N E)))

  abbrev pub pooled_client : PooledClient
  pooled_client = Client.new (handle boxes into d p)

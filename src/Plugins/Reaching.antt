-- ===== src/Plugins/Reaching.antt =====
-- Connecting over Iroh, and opening a stream, where neither waits for ever: navar-iroh/src/lib.rs.
use navar.Base.{◌≡◌, Option, none, some, Result, ok, err, ready, pending}
use navar.Iroh.{
  Quic, IrohError, IrohTransport, IrohConnection, IrohBidiStream, alpn_of, await_then, to_peer,
  to_host, connect, connection,
}
use navar.Std.Utf8.{Text}
use navar.Transport.{Awaited, IsReady, when_ready}

-- Connections, and streams, are made or fail at some time.
pub record Prompt {Endpoint EndpointId Conn Snd Rcv I E : Type 0}
    (quic : Quic Endpoint EndpointId Conn Snd Rcv I E) : Type 0 where
  pub connects :
      (endpoint : Endpoint) (id : EndpointId) (alpn : Text)
      → IsReady (quic.connect endpoint id alpn)
  pub opens : (conn : Conn) → IsReady (quic.open_bi conn)

pub await_then-IsReady :
    {E E' A B : Type 0} (fail : E → E') (wrap : A → B) (f : Awaited E A)
    → IsReady f
    → IsReady (await_then fail wrap f)
await_then-IsReady fail wrap (ready (ok a)) h = tt
await_then-IsReady fail wrap (ready (err e)) h = tt
await_then-IsReady fail wrap pending h = absurd h

pub when_ready-ready :
    {E A : Type 0} {r : Result E A} (f : Awaited E A) (h : IsReady f)
    → f ≡ ready r
    → when_ready f h ≡ r
when_ready-ready (ready r) h e = cc
when_ready-ready pending h e = absurd h

module _ {Endpoint EndpointId Conn Snd Rcv I E : Type 0}
    (quic : Quic Endpoint EndpointId Conn Snd Rcv I E) (prompt : Prompt quic) where
  to_peer-IsReady :
      (t : IrohTransport Endpoint) (id : Option EndpointId) → IsReady (to_peer quic t id)
  unfolding to_peer
  to_peer-IsReady t none = tt
  to_peer-IsReady t (some id) =
      await_then-IsReady _ _ (quic.connect t.endpoint id _) (prompt.connects t.endpoint id _)

  to_host-IsReady :
      (t : IrohTransport Endpoint) (host : Option Text) → IsReady (to_host quic t host)
  unfolding to_host
  to_host-IsReady t none = tt
  to_host-IsReady t (some name) = to_peer-IsReady t (quic.from_str name)

  -- `transport.connect` and `open_bidirectional`, awaited.
  pub connect_now :
      {Uri : Type 0}
      → (Uri → Option Text)
      → IrohTransport Endpoint
      → Uri
      → Result (IrohError E) (IrohConnection Conn)
  unfolding connect
  connect_now host t uri =
      when_ready ((connect quic host).connect t uri) (to_host-IsReady t (host uri))

  -- A host that names a peer, which can be reached with the first of the transport's protocols.
  pub connect_now-reached :
      {Uri : Type 0} (host : Uri → Option Text) (t : IrohTransport Endpoint) (uri : Uri)
      (name : Text) (id : EndpointId) (conn : Conn)
      → host uri ≡ some name
      → quic.from_str name ≡ some id
      → quic.connect t.endpoint id (alpn_of t.alpns) ≡ ready (ok conn)
      → connect_now host t uri ≡ ok (record { inner = conn })
  unfolding connect_now connect to_host to_peer
  connect_now-reached host t uri name id conn named key reached =
      when_ready-ready (to_host quic t (host uri)) (to_host-IsReady t (host uri))
        (rw (named, key, reached))

  pub open_now : IrohConnection Conn → Result (IrohError E) (IrohBidiStream Snd Rcv)
  unfolding connection
  open_now c =
      when_ready ((connection quic).open_bidirectional c)
        (await_then-IsReady _ _ (quic.open_bi c.inner) (prompt.opens c.inner))

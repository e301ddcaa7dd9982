-- ===== src/Iroh.antt =====
-- navar-iroh/src/lib.rs: the transport over the crate `iroh`, whose endpoints, connections and streams are
-- arguments. The adapters between the stream traits of tokio and futures-lite change nothing.
use navar.Base.{ℕ, List, [], ◌∷◌, Option, none, some, ok, err, ready, pending}
use navar.Std.Utf8.{Text}
use navar.Transport.{
  Awaited, Io, AsyncRead, AsyncWrite, SendStream, RecvStream, BidiStream, Connection,
  TransportPlugin,
}

-- What iroh does: `EndpointId::from_str`, `Endpoint::connect`, a connection's functions, and its streams.
pub record Quic (Endpoint EndpointId Conn S R I E : Type 0) : Type 0 where
  pub from_str : Text → Option EndpointId
  pub connect : Endpoint → EndpointId → Text → Awaited E Conn
  pub open_bi : Conn → Awaited E (S × R)
  pub open_uni : Conn → Awaited E S
  pub accept_bi : Conn → Awaited E (S × R)
  pub accept_uni : Conn → Awaited E R
  pub alpn : Conn → Text
  pub send_id : S → ℕ
  pub recv_id : R → ℕ
  pub send_write : AsyncWrite I S
  pub recv_read : AsyncRead I R

pub data IrohError (E : Type 0) : Type 0 where
  missing_host invalid_key : IrohError E
  failed : E → IrohError E
  other : E → IrohError E

pub record IrohTransport (Endpoint : Type 0) : Type 0 where
  pub endpoint : Endpoint
  pub alpns : List Text

-- `IrohTransport::new`
abbrev pub new : {Endpoint : Type 0} → Endpoint → List Text → IrohTransport Endpoint
new endpoint alpns = record { endpoint = endpoint; alpns = alpns }

pub record IrohConnection (Conn : Type 0) : Type 0 where
  pub inner : Conn

pub record IrohSendStream (S : Type 0) : Type 0 where
  pub inner : S

pub record IrohRecvStream (R : Type 0) : Type 0 where
  pub inner : R

pub record IrohBidiStream (S R : Type 0) : Type 0 where
  pub send : IrohSendStream S
  pub recv : IrohRecvStream R

abbrev default_alpn : Text
default_alpn = b'n' ∷ b'0' ∷ b'/' ∷ b'n' ∷ b'a' ∷ b'v' ∷ b'a' ∷ b'r' ∷ []

-- The first of the protocols, or the default.
abbrev pub alpn_of : List Text → Text
alpn_of [] = default_alpn
alpn_of (a ∷ rest) = a

abbrev pub await_then : {E E' A B : Type 0} → (E → E') → (A → B) → Awaited E A → Awaited E' B
await_then fail wrap (ready (ok a)) = ready (ok (wrap a))
await_then fail wrap (ready (err e)) = ready (err (fail e))
await_then fail wrap pending = pending

-- What a poll of an inner stream leaves, in its wrapper.
abbrev pub polled : {I S S' A : Type 0} → (S → S') → Io I S A → Io I S' A
polled wrap (answer, s) = (answer, wrap s)

module _ {Endpoint EndpointId Conn S R I E : Type 0}
    (quic : Quic Endpoint EndpointId Conn S R I E) where
  -- `EndpointId::from_str(..)?` and the connection to it.
  unfoldable pub to_peer :
      IrohTransport Endpoint → Option EndpointId → Awaited (IrohError E) (IrohConnection Conn)
  to_peer t none = ready (err invalid_key)
  to_peer t (some id) =
      await_then failed (λ c. record { inner = c }) (quic.connect t.endpoint id (alpn_of t.alpns))

  unfoldable pub to_host :
      IrohTransport Endpoint → Option Text → Awaited (IrohError E) (IrohConnection Conn)
  unfolding to_peer
  to_host t none = ready (err missing_host)
  to_host t (some host) = to_peer t (quic.from_str host)

  -- `host` is the host of a URI.
  unfoldable pub connect :
      {Uri : Type 0}
      → (Uri → Option Text)
      → TransportPlugin (IrohError E) (IrohTransport Endpoint) Uri (IrohConnection Conn)
  unfolding to_host
  connect host = record { connect = λ t uri. to_host t (host uri) }

  abbrev pub bidi : S × R → IrohBidiStream S R
  bidi (s, r) = record { send = record { inner = s }; recv = record { inner = r } }

  unfoldable pub connection :
      Connection
        (IrohError E)
        (IrohConnection Conn)
        (IrohBidiStream S R)
        (IrohSendStream S)
        (IrohRecvStream R)
  connection = record {
    open_bidirectional = λ c. await_then other bidi (quic.open_bi c.inner);
    open_unidirectional = λ c. await_then other (λ s. record { inner = s }) (quic.open_uni c.inner);
    accept_bidirectional = λ c. await_then other bidi (quic.accept_bi c.inner);
    accept_unidirectional =
        λ c. await_then other (λ r. record { inner = r }) (quic.accept_uni c.inner);
    alpn_protocol = λ c. some (quic.alpn c.inner);
  }

  abbrev pub send_stream : SendStream I (IrohSendStream S)
  send_stream = record {
    stream = record { stream_id = λ s. quic.send_id s.inner };
    write = record {
      poll_write =
          λ s buf. polled (λ i. record { inner = i }) (quic.send_write.poll_write s.inner buf);
      poll_flush = λ s. polled (λ i. record { inner = i }) (quic.send_write.poll_flush s.inner);
      poll_close = λ s. polled (λ i. record { inner = i }) (quic.send_write.poll_close s.inner);
    };
  }

  abbrev pub recv_stream : RecvStream I (IrohRecvStream R)
  recv_stream = record {
    stream = record { stream_id = λ s. quic.recv_id s.inner };
    read = record {
      poll_read =
          λ s cap. polled (λ i. record { inner = i }) (quic.recv_read.poll_read s.inner cap);
    };
  }

  -- The two halves side by side.
  unfoldable pub bidi_stream :
      BidiStream I (IrohBidiStream S R) (IrohSendStream S) (IrohRecvStream R)
  bidi_stream = record {
    stream = record { stream_id = λ s. send_stream.stream.stream_id s.send };
    read = record {
      poll_read =
          λ s cap. polled (λ r. record s { recv = r }) (recv_stream.read.poll_read s.recv cap);
    };
    write = record {
      poll_write =
          λ s buf. polled (λ w. record s { send = w }) (send_stream.write.poll_write s.send buf);
      poll_flush = λ s. polled (λ w. record s { send = w }) (send_stream.write.poll_flush s.send);
      poll_close = λ s. polled (λ w. record s { send = w }) (send_stream.write.poll_close s.send);
    };
    send = send_stream;
    recv = recv_stream;
    split = λ s. (s.send, s.recv);
    alpn_protocol = λ s. none;
  }

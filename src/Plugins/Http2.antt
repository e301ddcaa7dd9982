-- ===== src/Plugins/Http2.antt =====
-- When hyper's automatic choice is HTTP/2, over the streams of Iroh and of Tokio.
use navar.Base.{◌≡◌, refl, sym, ap, ◌∙◌, true, false, Result, ok, err}
use navar.Hyper.Choice.{is_h2, is_h2-shake}
use navar.Hyper.{Protocol, auto, HyperSender, Hyper, is_alpn_h2, use_h2, shake, handshake}
use navar.Iroh.{Quic, IrohBidiStream}
use navar.Iroh
use navar.Tokio.Connecting.{is_tls, open_bidirectional-is_tls}
use navar.Tokio.Streams.{Sockets, alpn_protocol}
use navar.Tokio.{
  TransportError, UriParts, Net, TokioConnection, TokioTransport, TokioIo, plain_io, tls_io,
  is_https, connect, open_bidirectional,
}

-- A handshake that succeeds has opened a stream, and has used its protocol.
module _ {W C Io S1 S2 D Q R E : Type 0} (hyper : Hyper W C Io S1 S2 D Q R E) where
  opened_by :
      (p : Protocol) (r : Result E Io) (s : HyperSender S1 S2) (d : D)
      → shake hyper p r ≡ ok (s, d)
      → (io : Io) × (r ≡ ok io) × (is_h2 s ≡ use_h2 p (hyper.alpn_protocol io))
  unfolding shake
  opened_by p (ok io) s d h = (io, refl, is_h2-shake hyper p io s d h)
  opened_by p (err e) s d h = cc

  pub handshake_opened :
      (p : Protocol) (conn : C) (s : HyperSender S1 S2) (d : D)
      → handshake hyper p conn ≡ ok (s, d)
      → (io : Io) × (hyper.open_bidirectional conn ≡ ok io)
        × (is_h2 s ≡ use_h2 p (hyper.alpn_protocol io))
  unfolding handshake
  handshake_opened p conn s d h = opened_by p (hyper.open_bidirectional conn) s d h

-- Over the streams of Iroh the automatic choice is never HTTP/2, whatever protocol the connection has
-- negotiated, since its streams do not tell.
pub iroh_auto-is_h2 :
    {W C S1 S2 D Q R E Endpoint EndpointId Conn Snd Rcv I E' : Type 0}
    (quic : Quic Endpoint EndpointId Conn Snd Rcv I E')
    (hyper : Hyper W C (IrohBidiStream Snd Rcv) S1 S2 D Q R E) (conn : C) (s : HyperSender S1 S2)
    (d : D)
    → ((io : IrohBidiStream Snd Rcv)
        → hyper.alpn_protocol io ≡ (Iroh.bidi_stream quic).alpn_protocol io)
    → handshake hyper auto conn ≡ ok (s, d)
    → is_h2 s ≡ false
unfolding Iroh.bidi_stream
iroh_auto-is_h2 quic hyper conn s d streams h =
    let (io, opened, chosen) = handshake_opened hyper auto conn s d h in
    chosen ∙ ap is_alpn_h2 (streams io)

module _ {W S1 S2 D Q R Addr Connector Name Tcp Tls E Wr TlsWr Rd TlsRd I : Type 0}
    (net : Net Addr Connector Name Tcp Tls E) (sockets : Sockets Tcp Tls Wr TlsWr Rd TlsRd I)
    (hyper : Hyper W
      (TokioConnection Addr Connector Name)
      (TokioIo Tcp Tls)
      S1
      S2
      D
      Q
      R
      (TransportError E)) where
  encrypted_alpn :
      (io : TokioIo Tcp Tls) → is_alpn_h2 (alpn_protocol sockets io) ≡ true → is_tls io ≡ true
  encrypted_alpn (plain_io s) h = cc
  encrypted_alpn (tls_io s) h = refl

  -- Over the transport of Tokio the automatic choice is HTTP/2 only on an encrypted stream, and so only for
  -- a URI of the scheme `https`.
  pub tokio_auto-is_h2 :
      (t : TokioTransport Connector) (uri : UriParts) (conn : TokioConnection Addr Connector Name)
      (s : HyperSender S1 S2) (d : D)
      → hyper.open_bidirectional conn ≡ open_bidirectional net conn
      → ((io : TokioIo Tcp Tls) → hyper.alpn_protocol io ≡ alpn_protocol sockets io)
      → connect net t uri ≡ ok conn
      → handshake hyper auto conn ≡ ok (s, d)
      → is_h2 s ≡ true
      → is_https uri ≡ true
  tokio_auto-is_h2 t uri conn s d opens streams connected h two =
      let (io, opened, chosen) = handshake_opened hyper auto conn s d h in
      sym (open_bidirectional-is_tls net t uri conn io connected (sym opens ∙ opened))
      ∙ encrypted_alpn io (ap is_alpn_h2 (sym (streams io)) ∙ sym chosen ∙ two)

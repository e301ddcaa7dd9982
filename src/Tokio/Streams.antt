-- ===== src/Tokio/Streams.antt =====
-- navar-tokio/src/lib.rs: the streams, plain or encrypted, and their halves, over those of tokio and rustls.
-- The adapters between the stream traits of tokio and futures-lite change nothing.
use navar.Base.{ℕ, Bytes, Option, none}
use navar.Std.Utf8.{Text}
use navar.Tokio.{TokioIo, plain_io, tls_io}
use navar.Transport.{Io, AsyncRead, AsyncWrite, Stream, SendStream, RecvStream, BidiStream}

-- The variants of the source are `Plain` and `Tls`.
pub data TokioSendStream (W TlsW : Type 0) : Type 0 where
  plain_send : W → TokioSendStream W TlsW
  tls_send : TlsW → TokioSendStream W TlsW

pub data TokioRecvStream (R TlsR : Type 0) : Type 0 where
  plain_recv : R → TokioRecvStream R TlsR
  tls_recv : TlsR → TokioRecvStream R TlsR

-- The streams of the other crates: a socket and an encrypted stream, and the halves that their `split`
-- functions make.
pub record Sockets (Tcp Tls W TlsW R TlsR I : Type 0) : Type 0 where
  pub tcp_read : AsyncRead I Tcp
  pub tcp_write : AsyncWrite I Tcp
  pub tls_read : AsyncRead I Tls
  pub tls_write : AsyncWrite I Tls
  pub half_write : AsyncWrite I W
  pub tls_half_write : AsyncWrite I TlsW
  pub half_read : AsyncRead I R
  pub tls_half_read : AsyncRead I TlsR
  pub into_split : Tcp → R × W
  pub tls_split : Tls → TlsR × TlsW
  pub tls_alpn : Tls → Option Text

abbrev polled : {I S S' A : Type 0} → (S → S') → Io I S A → Io I S' A
polled wrap (answer, s) = (answer, wrap s)

module _ {Tcp Tls W TlsW R TlsR I : Type 0} (sockets : Sockets Tcp Tls W TlsW R TlsR I) where
  -- `AsyncRead` and `AsyncWrite` of `TokioIo`
  abbrev pub io_read : TokioIo Tcp Tls → ℕ → Io I (TokioIo Tcp Tls) Bytes
  io_read (plain_io s) cap = polled plain_io (sockets.tcp_read.poll_read s cap)
  io_read (tls_io s) cap = polled tls_io (sockets.tls_read.poll_read s cap)

  abbrev pub io_write : TokioIo Tcp Tls → Bytes → Io I (TokioIo Tcp Tls) ℕ
  io_write (plain_io s) buf = polled plain_io (sockets.tcp_write.poll_write s buf)
  io_write (tls_io s) buf = polled tls_io (sockets.tls_write.poll_write s buf)

  abbrev pub io_flush : TokioIo Tcp Tls → Io I (TokioIo Tcp Tls) (Unit {0})
  io_flush (plain_io s) = polled plain_io (sockets.tcp_write.poll_flush s)
  io_flush (tls_io s) = polled tls_io (sockets.tls_write.poll_flush s)

  abbrev pub io_close : TokioIo Tcp Tls → Io I (TokioIo Tcp Tls) (Unit {0})
  io_close (plain_io s) = polled plain_io (sockets.tcp_write.poll_close s)
  io_close (tls_io s) = polled tls_io (sockets.tls_write.poll_close s)

  -- `AsyncWrite` of `TokioSendStream`
  abbrev pub send_write : TokioSendStream W TlsW → Bytes → Io I (TokioSendStream W TlsW) ℕ
  send_write (plain_send s) buf = polled plain_send (sockets.half_write.poll_write s buf)
  send_write (tls_send s) buf = polled tls_send (sockets.tls_half_write.poll_write s buf)

  abbrev pub send_flush : TokioSendStream W TlsW → Io I (TokioSendStream W TlsW) (Unit {0})
  send_flush (plain_send s) = polled plain_send (sockets.half_write.poll_flush s)
  send_flush (tls_send s) = polled tls_send (sockets.tls_half_write.poll_flush s)

  abbrev pub send_close : TokioSendStream W TlsW → Io I (TokioSendStream W TlsW) (Unit {0})
  send_close (plain_send s) = polled plain_send (sockets.half_write.poll_close s)
  send_close (tls_send s) = polled tls_send (sockets.tls_half_write.poll_close s)

  -- `AsyncRead` of `TokioRecvStream`
  abbrev pub recv_read : TokioRecvStream R TlsR → ℕ → Io I (TokioRecvStream R TlsR) Bytes
  recv_read (plain_recv s) cap = polled plain_recv (sockets.half_read.poll_read s cap)
  recv_read (tls_recv s) cap = polled tls_recv (sockets.tls_half_read.poll_read s cap)

  abbrev pub split : TokioIo Tcp Tls → TokioSendStream W TlsW × TokioRecvStream R TlsR
  split (plain_io s) =
      let (read, write) = sockets.into_split s in (plain_send write, plain_recv read)
  split (tls_io s) = let (read, write) = sockets.tls_split s in (tls_send write, tls_recv read)

  abbrev pub alpn_protocol : TokioIo Tcp Tls → Option Text
  alpn_protocol (plain_io s) = none
  alpn_protocol (tls_io s) = sockets.tls_alpn s

  -- A connection of TCP has one stream.
  abbrev pub only_stream : {S : Type 0} → Stream S
  only_stream = record { stream_id = λ s. 0 }

  abbrev pub send_stream : SendStream I (TokioSendStream W TlsW)
  send_stream = record {
    stream = only_stream;
    write = record { poll_write = send_write; poll_flush = send_flush; poll_close = send_close };
  }

  abbrev pub recv_stream : RecvStream I (TokioRecvStream R TlsR)
  recv_stream = record { stream = only_stream; read = record { poll_read = recv_read } }

  abbrev pub bidi_stream :
      BidiStream I (TokioIo Tcp Tls) (TokioSendStream W TlsW) (TokioRecvStream R TlsR)
  bidi_stream = record {
    stream = only_stream;
    read = record { poll_read = io_read };
    write = record { poll_write = io_write; poll_flush = io_flush; poll_close = io_close };
    send = send_stream;
    recv = recv_stream;
    split = split;
    alpn_protocol = alpn_protocol;
  }

-- ===== src/Tests/Plugged.antt =====
-- Hyper over the streams of the two transports.
use navar.Base.{ℕ, ◌+◌, ◌≡◌, refl, true, false, [], some, ok, length, ready}
use navar.Hyper.{auto, h2_name, h1, h2, Hyper, handshake}
use navar.Iroh.{Quic, IrohBidiStream}
use navar.Iroh
use navar.Plugins.Http2.{iroh_auto-is_h2, tokio_auto-is_h2}
use navar.Hyper.Choice.{is_h2}
use navar.Tests.Transports.{net, transport, secure, connection, connect_run}
use navar.Tokio.Streams.{Sockets, alpn_protocol}
use navar.Tokio.{TransportError, TokioConnection, TokioIo, is_https, open_bidirectional}
use navar.Std.Text.{text_eq}
use navar.Transport.{AsyncRead, AsyncWrite}

abbrev pub reads : AsyncRead ℕ ℕ
reads = record { poll_read = λ s cap. (ready (ok []), s) }

abbrev pub writes : AsyncWrite ℕ ℕ
writes = record {
  poll_write = λ s buf. (ready (ok (length buf)), s + length buf);
  poll_flush = λ s. (ready (ok tt), s);
  poll_close = λ s. (ready (ok tt), s);
}

-- Its connections have all negotiated `h2`.
abbrev pub quic : Quic ℕ ℕ ℕ ℕ ℕ ℕ ℕ
quic = record {
  from_str = λ t. some (length t);
  connect = λ e id alpn. ready (ok id);
  open_bi = λ c. ready (ok (c, c));
  open_uni = λ c. ready (ok c);
  accept_bi = λ c. ready (ok (c, c));
  accept_uni = λ c. ready (ok c);
  alpn = λ c. h2_name;
  send_id = λ s. s;
  recv_id = λ r. r;
  send_write = writes;
  recv_read = reads;
}

abbrev over_iroh : Hyper ℕ ℕ (IrohBidiStream ℕ ℕ) ℕ ℕ ℕ ℕ ℕ ℕ
over_iroh = record {
  open_bidirectional =
      λ c. ok (record { send = record { inner = c }; recv = record { inner = c } });
  alpn_protocol = (Iroh.bidi_stream quic).alpn_protocol;
  http1_handshake = λ io. ok (1, 0);
  http2_handshake = λ io. ok (2, 0);
  http1_ready = λ s w. (ok tt, w);
  http1_send_request = λ s q w. (ok q, w);
  http2_ready = λ s w. (ok tt, w);
  http2_send_request = λ s q w. (ok q, w);
}

shook_iroh : handshake over_iroh auto 5 ≡ ok (h1 1, 0)
unfolding handshake Iroh.bidi_stream
shook_iroh = refl

iroh_auto-is_h2_example : is_h2 {S1 = ℕ} {S2 = ℕ} (h1 1) ≡ false
iroh_auto-is_h2_example = iroh_auto-is_h2 quic over_iroh 5 (h1 1) 0 (λ io. refl) shook_iroh

abbrev pub sockets : Sockets ℕ ℕ ℕ ℕ ℕ ℕ ℕ
sockets = record {
  tcp_read = reads;
  tcp_write = writes;
  tls_read = reads;
  tls_write = writes;
  half_write = writes;
  tls_half_write = writes;
  half_read = reads;
  tls_half_read = reads;
  into_split = λ s. (s, s);
  tls_split = λ s. (s, s);
  tls_alpn = λ s. some h2_name;
}

abbrev over_tokio : Hyper ℕ (TokioConnection ℕ ℕ ℕ) (TokioIo ℕ ℕ) ℕ ℕ ℕ ℕ ℕ (TransportError ℕ)
over_tokio = record {
  open_bidirectional = open_bidirectional net;
  alpn_protocol = alpn_protocol sockets;
  http1_handshake = λ io. ok (1, 0);
  http2_handshake = λ io. ok (2, 0);
  http1_ready = λ s w. (ok tt, w);
  http1_send_request = λ s q w. (ok q, w);
  http2_ready = λ s w. (ok tt, w);
  http2_send_request = λ s q w. (ok q, w);
}

shook_tokio : handshake over_tokio auto connection ≡ ok (h2 2, 0)
unfolding handshake open_bidirectional text_eq
shook_tokio = refl

secure_by_h2 : is_https secure ≡ true
secure_by_h2 =
    tokio_auto-is_h2 net sockets over_tokio transport secure connection (h2 2) 0 refl (λ io. refl)
      connect_run shook_tokio refl

-- ===== src/Tests/Transports.antt =====
-- The choices of the plugins: the protocol of hyper, and TLS.
use navar.Base.{◌++◌, List, ℕ, ◌≡◌, ◌↔◌, ◌⊎◌, refl, [], ◌∷◌, true, none, some, ok, length}
use navar.Hyper.Choice.{handshake-is_h2}
use navar.Hyper.{auto, http2, h2_name, h2, Hyper, handshake}
use navar.Tests.Data.{codes}
use navar.Std.Utf8.{Text}
use navar.Tokio.Connecting.{connect-addr, is_tls, open_bidirectional-is_tls}
use navar.Tokio.{
  Net, UriParts, TokioTransport, TokioConnection, tls_io, https, is_https, connect,
  open_bidirectional,
}
use navar.Std.Text.{text_eq}

abbrev hyper : Hyper ℕ ℕ ℕ ℕ ℕ ℕ ℕ ℕ ℕ
hyper = record {
  open_bidirectional = λ c. ok c;
  alpn_protocol = λ io. some h2_name;
  http1_handshake = λ io. ok (1, 0);
  http2_handshake = λ io. ok (2, 0);
  http1_ready = λ s w. (ok tt, w);
  http1_send_request = λ s q w. (ok q, w);
  http2_ready = λ s w. (ok tt, w);
  http2_send_request = λ s q w. (ok q, w);
}

shook : handshake hyper auto 5 ≡ ok (h2 2, 0)
unfolding handshake text_eq
shook = refl

shook_h2 : (true ≡ true) ↔ ((auto ≡ http2) ⊎ ((auto ≡ auto) × (some h2_name ≡ some h2_name)))
shook_h2 = handshake-is_h2 hyper auto 5 5 (h2 2) 0 refl shook

abbrev pub net : Net ℕ ℕ ℕ ℕ ℕ ℕ
net = record {
  display = λ n. n ∷ [];
  lookup_host = λ t. ok (length t ∷ []);
  server_name = λ t. some (length t);
  tcp_connect = λ a. ok a;
  tls_connect = λ c n t. ok t;
}

abbrev pub transport : TokioTransport ℕ
transport = record { tls = some 6 }

abbrev pub secure : UriParts
secure = record { host = some (codes "ab"); port_u16 = none; scheme_str = some https }

abbrev pub connection : TokioConnection ℕ ℕ ℕ
connection = record { addr = 4; tls_config = some (6, 2) }

pub connect_run : connect net transport secure ≡ ok connection
unfolding connect text_eq
connect_run = refl

open_run : open_bidirectional net connection ≡ ok (tls_io 4)
unfolding open_bidirectional
open_run = refl

opened_tls : is_tls {Tcp = ℕ} {TlsIo = ℕ} (tls_io 4) ≡ is_https secure
opened_tls =
    open_bidirectional-is_tls net transport secure connection (tls_io 4) connect_run open_run

connected_addr :
    (host : Text) × (rest : List ℕ) × (some (codes "ab") ≡ some host)
    × (net.lookup_host (host ++ (b':' ∷ 443 ∷ [])) ≡ ok (4 ∷ rest))
unfolding text_eq
connected_addr = connect-addr net transport secure connection connect_run

-- ===== src/Tokio.antt =====
-- navar-tokio/src/lib.rs, with its feature `tls`: connecting, and opening a stream. The crates `tokio`,
-- `rustls` and `http` are arguments; `E` is an error of theirs.
pub mod Connecting
pub mod Streams
pub mod Config
use navar.Base.{
  ℕ, Bool, true, false, List, [], ◌∷◌, ◌++◌, Option, none, some, Result, ok, err, and_then,
  if◌then◌else◌,
}
use navar.Std.Text.{text_eq}
use navar.Std.Utf8.{Text}

pub data TransportError (E : Type 0) : Type 0 where
  missing_host dns_failed tls_not_configured invalid_dns_name : TransportError E
  no_unidirectional no_accepting : TransportError E
  other : E → TransportError E

-- A URI as the transport reads it.
pub record UriParts : Type 0 where
  pub host : Option Text
  pub port_u16 : Option ℕ
  pub scheme_str : Option Text

abbrev pub https : Text
https = b'h' ∷ b't' ∷ b't' ∷ b'p' ∷ b's' ∷ []

-- What the other crates do: `lookup_host`, `ServerName::try_from`, `TcpStream::connect`, the connector's
-- `connect`, and the printing of a port.
pub record Net (Addr Connector Name Tcp TlsIo E : Type 0) : Type 0 where
  pub display : ℕ → Text
  pub lookup_host : Text → Result E (List Addr)
  pub server_name : Text → Option Name
  pub tcp_connect : Addr → Result E Tcp
  pub tls_connect : Connector → Name → Tcp → Result E TlsIo

pub record TokioConnection (Addr Connector Name : Type 0) : Type 0 where
  pub addr : Addr
  pub tls_config : Option (Connector × Name)

pub record TokioTransport (Connector : Type 0) : Type 0 where
  pub tls : Option Connector

-- The variants of the source are `Plain` and `Tls`.
pub data TokioIo (Tcp TlsIo : Type 0) : Type 0 where
  plain_io : Tcp → TokioIo Tcp TlsIo
  tls_io : TlsIo → TokioIo Tcp TlsIo

-- `uri.scheme_str() == Some("https")`
abbrev pub is_https : UriParts → Bool
is_https uri = elim uri.scheme_str [ none ↦ false | some s ↦ text_eq s https ]

abbrev pub context : {E A : Type 0} → TransportError E → Option A → Result (TransportError E) A
context e none = err e
context e (some a) = ok a

abbrev pub lift : {E A : Type 0} → Result E A → Result (TransportError E) A
lift (ok a) = ok a
lift (err e) = err (other e)

abbrev pub first : {A : Type 0} → List A → Option A
first [] = none
first (a ∷ rest) = some a

abbrev pub get_or : {A : Type 0} → Option A → A → A
get_or none b = b
get_or (some a) b = a

module _ {Addr Connector Name Tcp TlsIo E : Type 0}
    (net : Net Addr Connector Name Tcp TlsIo E) where
  abbrev pub port : UriParts → ℕ
  port uri = get_or uri.port_u16 (if is_https uri then 443 else 80)

  tls_config :
      TokioTransport Connector
      → UriParts
      → Text
      → Result (TransportError E) (Option (Connector × Name))
  tls_config t uri host =
      if is_https uri
      then and_then (context tls_not_configured t.tls) (λ tls.
        and_then (context invalid_dns_name (net.server_name host))
          (λ domain. ok (some (tls, domain))))
      else ok none

  -- The address that a URI's host and port stand for.
  pub resolve : UriParts → Text → Result (TransportError E) Addr
  resolve uri host =
      and_then (lift (net.lookup_host (host ++ (b':' ∷ net.display (port uri)))))
        (λ addrs. context dns_failed (first addrs))

  unfoldable pub connect :
      TokioTransport Connector
      → UriParts
      → Result (TransportError E) (TokioConnection Addr Connector Name)
  unfolding tls_config resolve
  connect t uri = and_then (context missing_host uri.host) (λ host.
      and_then (resolve uri host) (λ addr.
        and_then (tls_config t uri host) (λ tls. ok (record { addr = addr; tls_config = tls }))))

  -- The stream over an open socket.
  over : Option (Connector × Name) → Tcp → Result (TransportError E) (TokioIo Tcp TlsIo)
  over (some (connector, domain)) tcp =
      and_then (lift (net.tls_connect connector domain tcp)) (λ s. ok (tls_io s))
  over none tcp = ok (plain_io tcp)

  unfoldable pub open_bidirectional :
      TokioConnection Addr Connector Name → Result (TransportError E) (TokioIo Tcp TlsIo)
  unfolding over
  open_bidirectional conn = and_then (lift (net.tcp_connect conn.addr)) (over conn.tls_config)

-- The functions that the transport does not support.
abbrev pub open_unidirectional : {E A : Type 0} → Result (TransportError E) A
open_unidirectional = err no_unidirectional

abbrev pub accept_bidirectional : {E A : Type 0} → Result (TransportError E) A
accept_bidirectional = err no_accepting

abbrev pub accept_unidirectional : {E A : Type 0} → Result (TransportError E) A
accept_unidirectional = err no_accepting

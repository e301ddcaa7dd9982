-- ===== src/Tokio/Config.antt =====
-- navar-tokio/src/lib.rs, with its feature `tls`: how a `TokioTransport` is made.
use navar.Base.{List, [], ◌∷◌, Option, none, some, Bytes}
use navar.Std.Utf8.{Text}
use navar.Tokio.{TokioTransport}

-- What rustls does: root stores, with `add` as it leaves a store whether or not the certificate is good, a
-- client's configuration of roots and protocols, and the connector that has one.
pub record Rustls (Roots Config Connector : Type 0) : Type 0 where
  pub server_roots : Roots
  pub add : Roots → Bytes → Roots
  pub client_config : Roots → List Text → Config
  pub connector : Config → Connector

abbrev pub with_ca : {R C T : Type 0} → Rustls R C T → Option Bytes → R → R
with_ca rustls none roots = roots
with_ca rustls (some cert_bytes) roots = rustls.add roots cert_bytes

-- `TokioTransport::new`
abbrev pub new : {R C T : Type 0} → Rustls R C T → List Text → Option Bytes → TokioTransport T
new rustls alpns ca_cert = record {
  tls =
      some (
        rustls.connector (rustls.client_config (with_ca rustls ca_cert rustls.server_roots) alpns));
}

abbrev h2_name : Text
h2_name = b'h' ∷ b'2' ∷ []

abbrev http1_name : Text
http1_name = b'h' ∷ b't' ∷ b't' ∷ b'p' ∷ b'/' ∷ b'1' ∷ b'.' ∷ b'1' ∷ []

-- `TokioTransport::default`
abbrev pub default_transport : {R C T : Type 0} → Rustls R C T → TokioTransport T
default_transport rustls = new rustls (h2_name ∷ http1_name ∷ []) none

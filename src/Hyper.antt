-- ===== src/Hyper.antt =====
-- navar-hyper/src/lib.rs: the choice of the protocol, the handshake, and requests through its session. The
-- crate `hyper`, the connection and its streams are arguments; the drivers only print an error at their
-- end. `convert_body` is `normalize`.
pub mod Choice
pub mod Shared
use navar.Base.{
  Bool, true, false, List, [], ◌∷◌, Option, none, some, Result, ok, err, if◌then◌else◌,
}
use navar.Body.{Body}
use navar.Buf.{Buf}
use navar.Http.{Request}
use navar.Normalize.{Boxes, normalize}
use navar.Std.Text.{text_eq}
use navar.Std.Utf8.{Text}

pub data Protocol : Type 0 where
  auto http1 http2 : Protocol

pub record HyperApp : Type 0 where
  pub protocol : Protocol

-- `HyperApp::new`, which is the default, and `with_protocol`.
abbrev pub new : HyperApp
new = record { protocol = auto }

abbrev pub with_protocol : HyperApp → Protocol → HyperApp
with_protocol app protocol = record app { protocol = protocol }

unfoldable pub convert_body :
    {D N E E' : Type 0} {b : Buf D} {n : Buf N} → Boxes b n → (E → E') → Body D E → Body N E'
unfolding normalize
convert_body boxes into body = normalize boxes into body

abbrev pub h2_name : Text
h2_name = b'h' ∷ b'2' ∷ []

-- `S1` and `S2` are the senders of the two protocols.
pub data HyperSender (S1 S2 : Type 0) : Type 0 where
  h1 : S1 → HyperSender S1 S2
  h2 : S2 → HyperSender S1 S2

-- The functions of `hyper::client::conn`, and of the connection. A request changes the world `W`.
pub record Hyper (W C Io S1 S2 D Q R E : Type 0) : Type 0 where
  pub open_bidirectional : C → Result E Io
  pub alpn_protocol : Io → Option Text
  pub http1_handshake : Io → Result E (S1 × D)
  pub http2_handshake : Io → Result E (S2 × D)
  pub http1_ready : S1 → W → Result E (Unit {0}) × W
  pub http1_send_request : S1 → Q → W → Result E R × W
  pub http2_ready : S2 → W → Result E (Unit {0}) × W
  pub http2_send_request : S2 → Q → W → Result E R × W

abbrev pub is_alpn_h2 : Option Text → Bool
is_alpn_h2 none = false
is_alpn_h2 (some name) = text_eq name h2_name

-- `match (self.protocol, alpn)`
abbrev pub use_h2 : Protocol → Option Text → Bool
use_h2 http2 alpn = true
use_h2 http1 alpn = false
use_h2 auto alpn = is_alpn_h2 alpn

-- `ready().await?` and then the request.
abbrev after_ready :
    {W E R : Type 0} → (W → Result E R × W) → Result E (Unit {0}) × W → Result E R × W
after_ready next (ok u, w) = next w
after_ready next (err e, w) = (err e, w)

module _ {W C Io S1 S2 D Q R E : Type 0} (hyper : Hyper W C Io S1 S2 D Q R E) where
  h2_session : Result E (S2 × D) → Result E (HyperSender S1 S2 × D)
  h2_session (ok (s, d)) = ok (h2 s, d)
  h2_session (err e) = err e

  h1_session : Result E (S1 × D) → Result E (HyperSender S1 S2 × D)
  h1_session (ok (s, d)) = ok (h1 s, d)
  h1_session (err e) = err e

  -- The handshake over an open stream.
  unfoldable pub shake : Protocol → Result E Io → Result E (HyperSender S1 S2 × D)
  unfolding h2_session h1_session
  shake protocol (err e) = err e
  shake protocol (ok io) =
      if use_h2 protocol (hyper.alpn_protocol io)
      then h2_session (hyper.http2_handshake io)
      else h1_session (hyper.http1_handshake io)

  unfoldable pub handshake : Protocol → C → Result E (HyperSender S1 S2 × D)
  unfolding shake
  handshake protocol conn = shake protocol (hyper.open_bidirectional conn)

unfoldable pub send_request :
    {W C Io S1 S2 D R H N D' E E' : Type 0} {b : Buf D'} {n : Buf N}
    → Boxes b n
    → (E' → E)
    → Hyper W C Io S1 S2 D (Request H (Body N E)) R E
    → HyperSender S1 S2
    → Request H (Body D' E')
    → W
    → Result E R × W
unfolding convert_body
send_request boxes into hyper (h1 s) req w =
    after_ready
      (hyper.http1_send_request s
        (record { head = req.head; body = convert_body boxes into req.body }))
      (hyper.http1_ready s w)
send_request boxes into hyper (h2 s) req w =
    after_ready
      (hyper.http2_send_request s
        (record { head = req.head; body = convert_body boxes into req.body }))
      (hyper.http2_ready s w)

-- ===== src/Tests/Schemes.antt =====
-- Requests of both schemes to one host, over Tokio and hyper.
use native.Mathlib.Decide.{ℕ_discrete}
use navar.Base.{
  ℕ, ◌≡◌, ◌≢◌, refl, sym, subst, ap, ap₂, ◌∙◌, false, List, [], ◌∷◌, Option, none, some, ok,
}
use mathlib.Core.Logic.{ite, if_pos, if_neg}
use mathlib.Core.List.{Memᴰ}
use mathlib.Core.List.Memᴰ
use navar.Body.{Body}
use navar.Http.{Request}
use navar.Hyper.{HyperApp, HyperSender, Hyper, h1, h2, handshake}
use navar.Hyper
use navar.Plugins.Encryption.{Carried, sent-is_tls, https-over_plain}
use navar.Plugins.Encryption
use navar.Plugins.Stack.{tokio_hyper_kinds}
use navar.Pool.First.{opening, handle_first}
use navar.Pool.{
  DashMap, Kinds, Event, Response, connected, sent, Plugins, new, send_through, handle, run,
}
use navar.Std.Text.{text_eq}
use navar.Std.Utf8.{Text}
use navar.Tests.Data.{Two, boxes, codes}
use navar.Tests.Plugged.{sockets}
use navar.Tests.Transports.{net, transport, secure, connection, connect_run}
use navar.Tokio.{
  TransportError, missing_host, UriParts, TokioConnection, TokioIo, is_https, connect,
  open_bidirectional,
}

pub text_discrete : Discrete Text
text_discrete [] [] = yes refl
text_discrete [] (y ∷ ys) = no (λ e. cc)
text_discrete (x ∷ xs) [] = no (λ e. cc)
text_discrete (x ∷ xs) (y ∷ ys) = elim (ℕ_discrete x y) [
  | yes e ↦ elim (text_discrete xs ys) [
    | yes f ↦ yes (ap₂ (λ a rest. a ∷ rest) e f)
    | no f ↦ no (λ h. f (let tails : xs ≡ ys = cc in tails))
  ]
  | no e ↦ no (λ h. e (let heads : x ≡ y = cc in heads))
]

abbrev pub Sessions : Type 0
Sessions = List (Text × HyperSender ℕ ℕ)

abbrev pub find : Sessions → Text → Option (HyperSender ℕ ℕ)
find [] k = none
find ((j, v) ∷ m) k = let rest = find m k in ite (text_discrete j k) (some v) rest

pub find-insert_self :
    (m : Sessions) (k : Text) (v : HyperSender ℕ ℕ) → find ((k, v) ∷ m) k ≡ some v
find-insert_self m k v = if_pos (text_discrete k k) refl _ _

pub find-insert_ne :
    (m : Sessions) (j k : Text) (v : HyperSender ℕ ℕ) → j ≢ k → find ((k, v) ∷ m) j ≡ find m j
find-insert_ne m j k v ne = if_neg (text_discrete k j) (λ e. ne (sym e)) _ _

abbrev pub map : DashMap Text (HyperSender ℕ ℕ)
map = record {
  Carrier = Sessions;
  empty = [];
  entry = find;
  insert = λ m k v. (k, v) ∷ m;
  same_key = text_discrete;
  entry-empty = λ k. refl;
  entry-insert_self = find-insert_self;
  entry-insert_ne = find-insert_ne;
}

abbrev pub Asked : Type 0
Asked = Request UriParts (Body Two (TransportError ℕ))

abbrev pub kinds : Kinds
kinds = tokio_hyper_kinds ℕ ℕ ℕ ℕ ℕ ℕ Asked ℕ Two ℕ ℕ

abbrev pub hyper :
    Hyper
      (List (Event kinds))
      (TokioConnection ℕ ℕ ℕ)
      (TokioIo ℕ ℕ)
      ℕ
      ℕ
      ℕ
      Asked
      (Response ℕ (Body Two ℕ))
      (TransportError ℕ)
hyper = record {
  open_bidirectional = open_bidirectional net;
  alpn_protocol = λ io. none;
  http1_handshake = λ io. ok (1, 0);
  http2_handshake = λ io. ok (2, 0);
  http1_ready = λ s w. (ok tt, w);
  http1_send_request = λ s q w. (ok (record { parts = 200; body = [] }), w);
  http2_ready = λ s w. (ok tt, w);
  http2_send_request = λ s q w. (ok (record { parts = 200; body = [] }), w);
}

abbrev pub other : ℕ → TransportError ℕ
other n = TransportError.other n

abbrev pub plain : UriParts
plain = record secure { scheme_str = none }

abbrev to_plain : Asked
to_plain = record { head = plain; body = [] }

abbrev pub to_secure : Asked
to_secure = record { head = secure; body = [] }

abbrev pub one_host : UriParts → Option Text
one_host u = u.host

abbrev pub base : Plugins kinds
base =
    Encryption.plugins boxes (λ log. net) sockets (λ log. hyper) transport Hyper.new (λ h. h)
      one_host missing_host boxes other map

abbrev pub answer : Response ℕ (Body Two ℕ)
answer = record { parts = 200; body = [] }

-- A request of the scheme `https` only.
abbrev asked : List Asked
asked = to_secure ∷ []

one_scheme :
    (q₁ q₂ : Asked)
    → Memᴰ q₁ asked
    → Memᴰ q₂ asked
    → one_host q₁.head ≡ one_host q₂.head
    → is_https q₁.head ≡ is_https q₂.head
one_scheme q₁ q₂ m₁ m₂ h = all_secure q₁ m₁ ∙ sym (all_secure q₂ m₂)
  where
    all_secure : (q : Asked) → Memᴰ q asked → is_https q.head ≡ is_https secure
    all_secure q (Memᴰ.head e) = ap (λ x. is_https x.head) e
    all_secure q (Memᴰ.tail m) = absurd (Memᴰ.not-nil m)

shook_secure : base.handshake (connected secure (ok connection) ∷ []) connection ≡ ok (h2 2, 0)
unfolding handshake open_bidirectional text_eq
shook_secure = refl

answered_secure :
    base.send_request (opening base to_secure (codes "ab") connection (h2 2) 0 []) (h2 2) to_secure
    ≡ ok answer
unfolding Hyper.send_request
answered_secure = refl

sent_secure :
    Memᴰ
      (sent (h2 2) to_secure (ok answer))
      (run boxes other map base asked (new boxes other map base)).log
unfolding run new
sent_secure =
    subst (Memᴰ (sent (h2 2) to_secure (ok answer)))
      (sym (
        ap (λ x. x.1.log)
          (handle_first boxes other map base (new boxes other map base) (codes "ab") to_secure
            connection (h2 2) 0 answer refl refl connect_run shook_secure answered_secure)))
      (Memᴰ.head refl)

secure_sent :
    Carried boxes
      (λ log. net)
      sockets
      (λ log. hyper)
      transport
      Hyper.new
      (λ h. h)
      one_host
      missing_host
      boxes
      other
      map
      (h2 2)
      (is_https secure)
secure_sent =
    sent-is_tls boxes (λ log. net) sockets (λ log. hyper) transport Hyper.new (λ h. h) one_host
      missing_host boxes other map asked to_secure (h2 2) (ok answer) one_scheme (Memᴰ.head refl)
      sent_secure

abbrev plain_connection : TokioConnection ℕ ℕ ℕ
plain_connection = record { addr = 4; tls_config = none }

reached_plain : base.connect [] plain ≡ ok plain_connection
unfolding connect text_eq
reached_plain = refl

shook_plain :
    base.handshake (connected plain (ok plain_connection) ∷ []) plain_connection ≡ ok (h1 1, 0)
unfolding handshake open_bidirectional text_eq
shook_plain = refl

https-over_plain_example :
    Carried boxes
      (λ log. net)
      sockets
      (λ log. hyper)
      transport
      Hyper.new
      (λ h. h)
      one_host
      missing_host
      boxes
      other
      map
      (h1 1)
      false
    × (handle boxes other map base to_secure
          (run boxes other map base (to_plain ∷ to_plain ∷ []) (new boxes other map base))
        ≡ send_through boxes other map base
            (h1 1)
            to_secure
            (run boxes other map base (to_plain ∷ to_plain ∷ []) (new boxes other map base)))
https-over_plain_example =
    https-over_plain boxes (λ log. net) sockets (λ log. hyper) transport Hyper.new (λ h. h) one_host
      missing_host boxes other map to_plain to_secure (to_plain ∷ []) (codes "ab") plain_connection
      (h1 1) 0 refl refl refl reached_plain shook_plain

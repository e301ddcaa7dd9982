-- ===== src/Tests/OverH3.antt =====
-- The command over Iroh and HTTP/3, and its choice of a client.
use navar.Base.{
  ℕ, ◌+◌, ◌<◌, ◌≡◌, refl, ap, subst, inl, List, [], ◌∷◌, ◌++◌, Option, none, some, Result, ok, Poll,
  ready, pending, Bytes, length, arith,
}
use navar.Body.{item, data_frame}
use navar.Reader.Pieces.{NeverFails, bytes_of}
use navar.Buf.{bytes_buf}
use navar.Client.Pooled.{pooled_client}
use navar.Client.{request}
use navar.Fetch.Main.Schemes.{main_alike}
use navar.Fetch.Main.{Config, returned, Execs, main}
use navar.Fetch.OverH3.{plugins, exec_h3, main-over_h3}
use navar.Fetch.{Line, parts_line, body_line, iroh_h3_name, iroh_http_name, add_headers}
use navar.H3.Handshake.{H3Session, h3_app}
use navar.H3.Session.Received.{Receives, answers, body_of, answers_all, answers-body_of}
use navar.H3.Session.{Streams, poll_frame}
use navar.Iroh.{IrohError}
use navar.Iroh
use navar.Normalize.{Boxes}
use navar.Plugins.OverIroh.{Futures, H3World, iroh_h3_kinds}
use navar.Plugins.Reaching.{Prompt}
use navar.Request as Building
use navar.Std.Utf8.{Text, encode, encode_char}
use navar.Tests.Data.{Two, two_buf, boxes, codes}
use navar.Tests.Plugged.{quic}
use navar.Tests.Requests.{TestHead, http, methods, no_frames, add_one, from_http}
use navar.Tests.Sessions.{map_of}
use navar.Tokio.Config.{Rustls}
use navar.Transport.{Awaited}

-- A stream is the buffers that are still to come.
abbrev recv : List Two → Poll (Result ℕ (Option Two)) × List Two
recv [] = (ready (ok none), [])
recv (d ∷ s) = (ready (ok (some d)), s)

abbrev to_come : List Two → Bytes
to_come [] = []
to_come (d ∷ s) = (d.0 ++ d.1) ++ to_come s

to_come-data :
    (s : List Two) (d : Two)
    → (recv s).0 ≡ ready (ok (some d))
    → to_come s ≡ (d.0 ++ d.1) ++ to_come (recv s).1
to_come-data [] d h = cc
to_come-data (x ∷ s) d h = let same : x ≡ d = cc h in ap (λ y. (y.0 ++ y.1) ++ to_come s) same

to_come-end : (s : List Two) → (recv s).0 ≡ ready (ok none) → to_come s ≡ []
to_come-end [] h = refl
to_come-end (x ∷ s) h = cc

to_come-pending : (s : List Two) → (recv s).0 ≡ pending → to_come s ≡ to_come (recv s).1
to_come-pending [] h = refl
to_come-pending (x ∷ s) h = cc

to_come-length : (s : List Two) → ((recv s).0 ≡ ready (ok none) → ⊥) → length (recv s).1 < length s
to_come-length [] h = absurd (h refl)
to_come-length (x ∷ s) h = omega arith

abbrev receives : Receives (List Two) Two ℕ two_buf
receives = record {
  poll_recv_data = recv;
  coming = to_come;
  polls_left = length;
  coming_data = to_come-data;
  coming_end = to_come-end;
  coming_pending = to_come-pending;
  polls_left_lt = to_come-length;
}

abbrev futures : Futures (IrohError ℕ)
futures = record { Fut = Awaited (IrohError ℕ); poll = λ f. (f, f); boxed = λ f. f }

-- The response comes in two buffers.
abbrev streams : Streams ℕ (List Two) TestHead ℕ ℕ
streams = record {
  send_request = λ c h. (ok [], c + 1);
  send_data = λ s bs. (ok tt, s);
  finish = λ s. (ok tt, s);
  recv_response = λ s. (ok 200, (codes "h", []) ∷ ([], codes "i") ∷ []);
}

abbrev prompt : Prompt quic
prompt = record { connects = λ e id alpn. tt; opens = λ c. tt }

abbrev boxed : Boxes bytes_buf two_buf
boxed = record { box = λ bs. ([], bs); unread-box = λ bs. refl }

abbrev args : Config ℕ ℕ
args = record { uri = 80; method = 2; headers = [] }

abbrev rustls : Rustls ℕ ℕ ℕ
rustls = record {
  server_roots = 0;
  add = λ r bs. r + 1;
  client_config = λ r alpns. r;
  connector = λ c. c;
}

abbrev execs : Execs ℕ ℕ ℕ ℕ ℕ ℕ
execs = record {
  over_tokio = λ t app a. ([], none);
  over_iroh = λ t app a. ([], some (length t.alpns));
  over_h3 = λ t app a. ([], some 3);
}

abbrev world :
    H3World ℕ ℕ ℕ ℕ ℕ ℕ futures
      (iroh_h3_kinds ℕ TestHead Two ℕ ℕ ℕ ℕ ℕ ℕ ℕ)
      two_buf
      ℕ
      (List Two)
      ℕ
      TestHead
      ℕ
      ℕ
      ℕ
world = record {
  quic = λ log. quic;
  prompt = λ log. prompt;
  net = λ log. record { client_new = λ c. ok (4, 6); streams = streams; receives = receives };
}

abbrev name_of : Text → Result ℕ ℕ
name_of t = ok 5

abbrev value_of : Text → Result ℕ Text
value_of t = ok t

abbrev peer : ℕ → Option Text
peer u = some (codes "peer")

abbrev head : TestHead
head = record { method = 2; uri = 80; headers = []; extensions = 0 }

abbrev response : List Two
response = (codes "h", []) ∷ ([], codes "i") ∷ []

response_body :
    (item (ok (data_frame (codes "h"))) ∷ item (ok (data_frame (codes "i"))) ∷ [])
    ≡ body_of receives (record { stream = response })
unfolding answers poll_frame
response_body = cc (answers_all receives (record { stream = response }))

whole : NeverFails (body_of receives (record { stream = response }))
whole = subst NeverFails response_body tt

answers-body_of_example :
    (answers receives 3 (record { stream = response })
      ≡ some (body_of receives (record { stream = response })))
    × (bytes_of bytes_buf (body_of receives (record { stream = response })) ≡ to_come response)
answers-body_of_example = answers-body_of receives (record { stream = response }) whole

built :
    http.head
      (add_headers http from_http methods name_of value_of
        (request http from_http methods
          (pooled_client boxed
            (λ e. e.inner)
            (map_of (H3Session ℕ))
            (plugins http from_http methods name_of value_of boxes add_one no_frames boxed
              (λ e. e.inner)
              (map_of (H3Session ℕ))
              (λ e. 9)
              peer
              (λ u. some u)
              30
              world
              (Iroh.new 1 (iroh_h3_name ∷ []))
              h3_app))
          2
          (ok 80))
        []).inner
    ≡ ok head
unfolding add_headers request Building.new
built = refl

spelled : to_come response ≡ encode (codes "hi")
unfolding encode encode_char
spelled = refl

main-over_h3_example :
    main
      (record execs {
        over_h3 =
            exec_h3 http from_http methods name_of value_of boxes add_one no_frames boxed
              (λ e. e.inner)
              (map_of (H3Session ℕ))
              (λ e. 9)
              peer
              (λ u. some u)
              30
              world;
      })
      rustls
      (ready (ok 1))
      (λ ep. ready tt)
      (λ u. some iroh_h3_name)
      args
    ≡ ready (returned (parts_line 200 ∷ body_line (codes "hi") ∷ []) none)
main-over_h3_example =
    main-over_h3 http from_http methods name_of value_of boxes add_one no_frames boxed
      (λ e. e.inner) (map_of (H3Session ℕ)) (λ e. 9) peer (λ u. some u) 30 world execs rustls
      (λ u. some iroh_h3_name) args 1 head 80 (codes "peer") 4 4 4 6 7 [] [] response 200
      (codes "hi") built refl refl refl refl refl refl refl refl refl refl whole
      (inl (omega arith), (inl (omega arith), tt)) spelled

-- Clients that tell how many protocols they offer, and others that count on there being one.
abbrev counting : Execs ℕ ℕ ℕ ℕ ℕ ℕ
counting = record execs { over_iroh = λ t app a. ([], some 1) }

count_one :
    (t : Iroh.IrohTransport ℕ) (alpn : Text)
    → t.alpns ≡ alpn ∷ []
    → ◌≡◌ {A = List (Line ℕ) × Option ℕ} ([], some (length t.alpns)) ([], some 1)
count_one t alpn h = rw h

main_alike_example :
    main execs rustls (ready (ok 1)) (λ ep. ready tt) (λ u. some iroh_http_name) args
    ≡ main counting rustls (ready (ok 1)) (λ ep. ready tt) (λ u. some iroh_http_name) args
main_alike_example =
    main_alike execs counting rustls (ready (ok 1)) (λ ep. ready tt) (λ u. some iroh_http_name) args
      (λ app. refl) (λ t app h. count_one t iroh_http_name h) (λ t app h. refl)

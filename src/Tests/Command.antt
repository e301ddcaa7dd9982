-- ===== src/Tests/Command.antt =====
-- The command on a URI that answers "hi".
use navar.Base.{ℕ, ◌≡◌, refl, arith, inl, List, [], ◌∷◌, none, some, Result, ok}
use navar.Body.{Body}
use navar.Client.Pooled.{request_kinds, pooled_client}
use navar.Fetch.First.{on_the_way, exec_request-first}
use navar.Fetch.{parts_line, body_line, add_headers, with_header, exec_request}
use navar.Client.{request}
use navar.Pool.First.{opening}
use navar.Pool.{Kinds, Response, Plugins, Pooled, sent}
use navar.Pool
use navar.Request as Building
use navar.Std.Text.{splitn2, trim_start, trim_end}
use navar.Std.Utf8.{Text}
use navar.Tests.Data.{Two, boxes, codes}
use navar.Tests.Requests.{TestHead, http, methods, no_frames, add_one, from_http, body, body_bytes}
use navar.Tests.Sessions.{map}

abbrev name_of : Text → Result ℕ ℕ
name_of t = ok 5

abbrev value_of : Text → Result ℕ Text
value_of t = ok t

abbrev kinds : Kinds
kinds = request_kinds TestHead (Body Two ℕ) ℕ ℕ ℕ ℕ ℕ ℕ Two ℕ ℕ

abbrev hi : Response ℕ (Body Two ℕ)
hi = record { parts = 200; body = body }

abbrev plugins : Plugins kinds
plugins = record {
  uri = λ q. q.head.uri;
  authority = λ u. some u;
  connect = λ log u. ok u;
  handshake = λ log c. ok (c, 7);
  send_request = λ log s q. ok hi;
  missing_authority = 30;
}

abbrev one_header : List Text
one_header = codes "a:b" ∷ []

abbrev sent_head : TestHead
sent_head = record { method = 2; uri = 80; headers = (5, codes "b") ∷ []; extensions = 0 }

built :
    http.head
      (add_headers http from_http methods name_of value_of
        (request http from_http methods (pooled_client boxes add_one map plugins) 2 (ok 80))
        one_header).inner
    ≡ ok sent_head
unfolding add_headers with_header request Building.new Building.header splitn2 trim_start trim_end
built = refl

exec_request-first_example :
    exec_request http from_http methods name_of value_of boxes add_one no_frames
      (pooled_client boxes add_one map plugins)
      2
      80
      one_header
      (Pool.new boxes add_one map plugins)
    ≡ (
      (parts_line 200 ∷ body_line (codes "hi") ∷ [], none),
      record {
        pool = (80, 80) ∷ [];
        log =
            sent 80
              (on_the_way http from_http methods name_of value_of boxes add_one no_frames boxes
                add_one map plugins sent_head)
              (ok hi)
            ∷ opening plugins
                (on_the_way http from_http methods name_of value_of boxes add_one no_frames boxes
                  add_one map plugins sent_head)
                80
                80
                80
                7
                [];
      },
    )
exec_request-first_example =
    exec_request-first http from_http methods name_of value_of boxes add_one no_frames boxes add_one
      map plugins 2 80 one_header sent_head 80 80 80 7 hi (codes "hi") built refl refl refl refl tt
      (inl (omega arith), (inl (omega arith), tt)) body_bytes

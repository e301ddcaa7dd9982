-- ===== src/Tests/Http3.antt =====
-- Streams of HTTP/3 over a transport that takes two bytes at a time, and over one that takes none.
use navar.Base.{
  ℕ, zero, suc, ◌≤◌, ◌<◌, ◌≡◌, ◌≢◌, ◌↔◌, refl, sym, ap, ◌∙◌, append-nil, List, [], ◌∷◌, ◌++◌, none,
  some, Result, ok, Poll, ready, pending, Bytes, length, take, drop, arith,
}
use navar.Body.{Body, item, not_ready, data_frame}
use navar.H3.Connect.Polls.{again, kept, outcome, seen_through, polls-seen_through}
use navar.H3.Connect.{
  Connection, H3Connection, poll_open_bidi, poll_open_send, poll_accept_bidi, poll_accept_recv,
}
use navar.H3.Errors.{conn_closed, stream_error}
use navar.H3.Session.Sent.{Records, send_frames-chunks_of, send_frames-bytes_of}
use navar.H3.Session.{Streams, send_frames}
use navar.Buf.{bytes_buf}
use navar.H3.Streams.Faults.{poll_ready_spins, given-split_iff}
use navar.H3.Streams.Receiving.{gather, gather-coming, poll_data-length}
use navar.H3.Streams.Sending.{
  Op, sends, polls_ready, polls_finish, perform_all, given, perform_all-given, poll_finish-taken,
}
use navar.H3.Streams.Written.{Progresses}
use navar.H3.Streams.{
  Writer, Source, H3SendStream, bidi_stream, send_stream, recv_stream, poll_ready, poll_finish,
  poll_data, split, write_out, flush_after,
}
use navar.Tests.Data.{Two, two_buf, codes}

-- The transport's stream is the bytes that it has taken.
abbrev pub taken_of : Bytes → ℕ
taken_of [] = 0
taken_of (x ∷ []) = 1
taken_of (x ∷ y ∷ bs) = 2

taken_of_le : (bs : Bytes) → taken_of bs ≤ length bs
taken_of_le [] = omega arith
taken_of_le (x ∷ []) = omega arith
taken_of_le (x ∷ y ∷ bs) = omega arith

pub pairs_written :
    (s bs : Bytes) (n : ℕ)
    → ◌≡◌ {A = Poll (Result ℕ ℕ)} (ready (ok (taken_of bs))) (ready (ok n))
    → (n ≤ length bs) × (s ++ take (taken_of bs) bs ≡ s ++ take n bs)
pairs_written s bs n h =
    let same : taken_of bs ≡ n = cc in
    (omega (arith, taken_of_le bs), ap (λ i. s ++ take i bs) same)

abbrev pub pairs : Writer Bytes ℕ
pairs = record {
  poll_write = λ s bs. (ready (ok (taken_of bs)), s ++ take (taken_of bs) bs);
  poll_flush = λ s. (ready (ok tt), s);
  taken = λ s. s;
  taken_write = pairs_written;
  taken_no_write = λ s bs h. absurd (h (taken_of bs) refl);
  taken_flush = λ s. refl;
}

taken_of_progress : (bs : Bytes) → bs ≢ [] → 0 < taken_of bs
taken_of_progress [] ne = absurd (ne refl)
taken_of_progress (x ∷ []) ne = omega arith
taken_of_progress (x ∷ y ∷ bs) ne = omega arith

pub Progresses-pairs : Progresses pairs
Progresses-pairs s bs n ne h =
    let same : taken_of bs ≡ n = cc in omega (arith, taken_of_progress bs ne)

abbrev sender : H3SendStream Bytes
sender = send_stream []

abbrev ops : List (Op Two)
ops = sends (codes "ab", codes "c") ∷ polls_ready ∷ sends (codes "d", []) ∷ polls_finish ∷ []

perform_all-given_example :
    (s' : H3SendStream Bytes) × (perform_all pairs two_buf ops sender ≡ some s')
    × (given pairs two_buf s' ≡ codes "abcd")
perform_all-given_example = perform_all-given pairs two_buf Progresses-pairs ops sender

abbrev filled : H3SendStream Bytes
filled = record { inner = []; buf = codes "abc" }

abbrev finished : H3SendStream Bytes
finished = record { inner = codes "abc"; buf = [] }

finish_run : poll_finish pairs 4 filled ≡ some (ready (ok tt), finished)
unfolding poll_finish poll_ready write_out flush_after
finish_run = refl

poll_finish-taken_example : (finished.buf ≡ []) × (finished.inner ≡ codes "abc")
poll_finish-taken_example =
    poll_finish-taken pairs two_buf Progresses-pairs filled finished finish_run

-- A transport that never takes a byte.
stuck_written :
    (s bs : Bytes) (n : ℕ)
    → ◌≡◌ {A = Poll (Result ℕ ℕ)} (ready (ok 0)) (ready (ok n))
    → (n ≤ length bs) × (s ≡ s ++ take n bs)
stuck_written s bs n h =
    let same : 0 ≡ n = cc in (omega arith, sym (append-nil s) ∙ ap (λ i. s ++ take i bs) same)

abbrev stuck : Writer Bytes ℕ
stuck = record {
  poll_write = λ s bs. (ready (ok 0), s);
  poll_flush = λ s. (ready (ok tt), s);
  taken = λ s. s;
  taken_write = stuck_written;
  taken_no_write = λ s bs h. refl;
  taken_flush = λ s. refl;
}

poll_ready_spins_example : poll_ready stuck 9 filled ≡ none
poll_ready_spins_example = poll_ready_spins stuck (λ s bs. refl) 9 filled (λ h. cc)

abbrev halves : Bytes → Bytes × Bytes
halves s = (s, s)

given-split_iff_example :
    ((split halves (record { inner = []; send_buf = codes "a" })).0.inner
        ++ (split halves (record { inner = []; send_buf = codes "a" })).0.buf
      ≡ codes "a")
    ↔ (codes "a" ≡ [])
given-split_iff_example =
    given-split_iff pairs pairs halves (record { inner = []; send_buf = codes "a" }) refl

-- A source that brings one byte at a time.
abbrev pub bit : ℕ → ℕ
bit zero = 0
bit (suc n) = 1

pub bytewise_read :
    (s : Bytes) (limit : ℕ) (bs : Bytes)
    → ◌≡◌ {A = Poll (Result ℕ Bytes)} (ready (ok (take (bit limit) s))) (ready (ok bs))
    → (length bs ≤ limit) × (s ≡ bs ++ drop (bit limit) s)
bytewise_read s zero bs h =
    let same : [] ≡ bs = cc in (omega (arith, ap length same), ap (λ t. t ++ s) same)
bytewise_read [] (suc limit) bs h =
    let same : [] ≡ bs = cc in (omega (arith, ap length same), same ∙ sym (append-nil bs))
bytewise_read (x ∷ s) (suc limit) bs h =
    let same : x ∷ [] ≡ bs = cc in (omega (arith, ap length same), ap (λ t. t ++ s) same)

abbrev pub bytewise : Source Bytes ℕ
bytewise = record {
  poll_read = λ s limit. (ready (ok (take (bit limit) s)), drop (bit limit) s);
  coming = λ s. s;
  coming_read = bytewise_read;
  coming_no_read = λ s limit h. absurd (h (take (bit limit) s) refl);
}

gather-coming_example :
    codes "abc"
    ≡ (gather bytewise 2 (recv_stream (codes "abc"))).0
      ++ (gather bytewise 2 (recv_stream (codes "abc"))).1.inner
gather-coming_example = gather-coming bytewise 2 (recv_stream (codes "abc"))

one_read : (poll_data bytewise (recv_stream (codes "abc"))).0 ≡ ready (ok (some (codes "a")))
unfolding poll_data
one_read = refl

poll_data-length_example : (0 < length (codes "a")) × (length (codes "a") ≤ 4096)
poll_data-length_example =
    poll_data-length bytewise (recv_stream (codes "abc")) (codes "a") one_read

-- Futures that are ready after some polls.
abbrev countdown : {A : Type 0} → ℕ × A → Poll (Result ℕ A) × (ℕ × A)
countdown (zero, a) = (ready (ok a), (zero, a))
countdown (suc n, a) = (pending, (n, a))

abbrev conn : Connection ℕ ℕ ℕ ℕ ℕ
conn = record {
  Fut = λ A. ℕ × A;
  poll = countdown;
  open_bidirectional = λ c. (2, c);
  open_unidirectional = λ c. (1, c);
  accept_bidirectional = λ c. (0, c);
  accept_unidirectional = λ c. (3, c);
}

abbrev h3_conn : H3Connection conn
h3_conn = record {
  inner = 7;
  accept_bidi_fut = none;
  accept_uni_fut = none;
  open_bidi_fut = some (1, 8);
  open_uni_fut = none;
}

polls-seen_through_example :
    (again (poll_open_bidi conn) 3 (poll_open_bidi conn h3_conn) ≡ (
      outcome stream_error bidi_stream (seen_through conn 3 (some (1, 8)) (2, 7)).0,
      record h3_conn { open_bidi_fut = kept (seen_through conn 3 (some (1, 8)) (2, 7)) },
    ))
    × (again (poll_open_send conn) 3 (poll_open_send conn h3_conn) ≡ (
      outcome stream_error send_stream (seen_through conn 3 none (1, 7)).0,
      record h3_conn { open_uni_fut = kept (seen_through conn 3 none (1, 7)) },
    ))
    × (again (poll_accept_bidi conn) 3 (poll_accept_bidi conn h3_conn) ≡ (
      outcome conn_closed bidi_stream (seen_through conn 3 none (0, 7)).0,
      record h3_conn { accept_bidi_fut = kept (seen_through conn 3 none (0, 7)) },
    ))
    × (again (poll_accept_recv conn) 3 (poll_accept_recv conn h3_conn) ≡ (
      outcome conn_closed recv_stream (seen_through conn 3 none (3, 7)).0,
      record h3_conn { accept_uni_fut = kept (seen_through conn 3 none (3, 7)) },
    ))
polls-seen_through_example = polls-seen_through conn 3 h3_conn

-- HTTP/3 streams that accept all data.
abbrev h3 : Streams ℕ Bytes ℕ ℕ ℕ
h3 = record {
  send_request = λ c h. (ok [], c);
  send_data = λ s bs. (ok tt, s ++ bs);
  finish = λ s. (ok tt, s);
  recv_response = λ s. (ok 200, s);
}

abbrev records : Records h3
records = record { sent = λ s. s; accepts = λ s bs. refl; sent-send_data = λ s bs. refl }

abbrev two_pieces : Body Two ℕ
two_pieces = item (ok (data_frame (codes "ab", codes "c"))) ∷ not_ready ∷ []

abbrev keep : ℕ → ℕ
keep n = n

send_frames-chunks_of_example :
    (s' : Bytes) × (send_frames h3 two_buf keep two_pieces h3.recv_response []
      ≡ h3.recv_response s')
    × (s' ≡ codes "ab")
send_frames-chunks_of_example =
    send_frames-chunks_of h3 two_buf records keep two_pieces h3.recv_response [] tt

abbrev one_piece : Body Bytes ℕ
one_piece =
    item (ok (data_frame (codes "ab"))) ∷ not_ready ∷ item (ok (data_frame (codes "c"))) ∷ []

all_bytes_sent :
    (s' : Bytes) × (send_frames h3 bytes_buf keep one_piece h3.recv_response []
      ≡ h3.recv_response s')
    × (s' ≡ codes "abc")
all_bytes_sent =
    send_frames-bytes_of h3 bytes_buf records keep one_piece h3.recv_response [] (λ d. refl) tt

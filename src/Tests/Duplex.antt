-- ===== src/Tests/Duplex.antt =====
-- A bidirectional stream of HTTP/3 over a transport that takes two bytes at a time and brings one.
use navar.Base.{ℕ, ◌+◌, ◌≡◌, refl, List, [], ◌∷◌, ◌++◌, length, some, ok, ready, Bytes}
use navar.H3.Streams.Bidirectional.{
  Independent, BidiOp, out, polls_data, delivered, run_all, run_all-given_out,
}
use navar.H3.Streams.Sending.{sends, polls_ready, polls_finish}
use navar.H3.Streams.Written.{Progresses}
use navar.H3.Streams.{Writer, Source, Answer, H3BidiStream, poll_finish_bidi}
use navar.Tests.Data.{Two, two_buf, codes}
use navar.Tests.Http3.{pairs, Progresses-pairs, bytewise}

-- The bytes that it has taken, and those that it is to bring.
abbrev both_out : Writer Two ℕ
both_out = record {
  poll_write = λ s bs. ((pairs.poll_write s.0 bs).0, ((pairs.poll_write s.0 bs).1, s.1));
  poll_flush = λ s. (ready (ok tt), s);
  taken = λ s. s.0;
  taken_write = λ s. pairs.taken_write s.0;
  taken_no_write = λ s. pairs.taken_no_write s.0;
  taken_flush = λ s. refl;
}

abbrev both_in : Source Two ℕ
both_in = record {
  poll_read =
      λ s limit. ((bytewise.poll_read s.1 limit).0, (s.0, (bytewise.poll_read s.1 limit).1));
  coming = λ s. s.1;
  coming_read = λ s. bytewise.coming_read s.1;
  coming_no_read = λ s. bytewise.coming_no_read s.1;
}

Progresses-both_out : Progresses both_out
Progresses-both_out s = Progresses-pairs s.0

Independent-both : Independent both_out both_in
Independent-both = record {
  taken_read = λ s limit. refl;
  coming_write = λ s bs. refl;
  coming_flush = λ s. refl;
}

abbrev duplex : H3BidiStream Two
duplex = record { inner = ([], codes "xyz"); send_buf = codes "a" }

abbrev ops : List (BidiOp Two)
ops =
    out (sends (codes "bc", codes "d"))
    ∷ polls_data
    ∷ out polls_ready
    ∷ polls_data
    ∷ out (sends ([], codes "e"))
    ∷ out polls_finish
    ∷ []

run_all-given_out_example :
    (brought : Bytes) × (left : H3BidiStream Two) × (run_all both_out both_in two_buf ops duplex
      ≡ some (brought, left))
    × (left.inner.0 ++ left.send_buf ≡ codes "abcde")
    × (codes "xyz" ≡ brought ++ left.inner.1)
    × (answer : Answer) × (t : H3BidiStream Two) × (poll_finish_bidi both_out
          (length left.send_buf + 1)
          left
        ≡ some (answer, t))
    × (delivered both_out both_in two_buf answer t ≡ codes "abcde")
run_all-given_out_example =
    run_all-given_out both_out both_in two_buf Progresses-both_out Independent-both ops duplex

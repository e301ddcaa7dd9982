-- ===== src/Tests/Encrypted.antt =====
-- A request of the scheme `https` as a task, over Tokio and hyper.
use navar.Base.{ℕ, refl, arith, ok}
use mathlib.Core.List.{Memᴰ}
use navar.Hyper.{h2, handshake}
use navar.Hyper
use navar.Plugins.Encryption.{Carried, Reach-is_tls}
use navar.Pool.Tasks.{
  can_run, on_call, on_lock, on_connected, on_shaken, advance, System, with_task, runs, start,
  Reach, starts, steps,
}
use navar.Pool.{sent, new}
use navar.Std.Text.{text_eq}
use navar.Std.Utf8.{Text}
use navar.Tests.Data.{boxes}
use navar.Tests.Plugged.{sockets}
use navar.Tests.Schemes.{map, hyper, other, base, one_host, to_secure, answer, Asked}
use navar.Tests.Transports.{net, transport, secure}
use navar.Tokio.{missing_host, is_https, connect, open_bidirectional}

abbrev one_shard : Text → ℕ
one_shard t = 0

abbrev reqs : ℕ → Asked
reqs i = to_secure

abbrev Tasks : Type 0
Tasks = System boxes other map base one_shard

abbrev run_it : Tasks → Tasks
run_it s =
    with_task boxes other map base one_shard s 0
      (advance boxes other map base one_shard 0 s.shared (s.tasks 0))

abbrev connecting_it : Tasks
connecting_it = run_it (run_it (start boxes other map base one_shard 1 reqs))

abbrev ended : Tasks
ended = run_it (run_it (run_it connecting_it))

reached : Reach boxes other map base one_shard 1 1 reqs ended
unfolding can_run advance on_call on_lock on_connected on_shaken new connect text_eq handshake
    open_bidirectional
reached =
    steps
      (steps
        (steps (steps (steps starts (runs 0 (omega arith) refl)) (runs 0 (omega arith) refl))
          (runs 0 (omega arith) refl))
        (runs 0 (omega arith) refl))
      (runs 0 (omega arith) refl)

sent_it : Memᴰ (sent (h2 2) to_secure (ok answer)) ended.shared.service.log
unfolding advance on_call on_lock on_connected on_shaken new connect text_eq handshake
    open_bidirectional Hyper.send_request
sent_it = Memᴰ.head refl

Reach-is_tls_example :
    Carried boxes
      (λ log. net)
      sockets
      (λ log. hyper)
      transport
      Hyper.new
      (λ h. h)
      one_host
      missing_host
      boxes
      other
      map
      (h2 2)
      (is_https secure)
Reach-is_tls_example =
    Reach-is_tls boxes (λ log. net) sockets (λ log. hyper) transport Hyper.new (λ h. h) one_host
      missing_host boxes other map one_shard reqs (λ i j h. refl) reached 0 (h2 2) (ok answer)
      sent_it

-- ===== src/H3/Handshake.antt =====
-- navar-h3/src/lib.rs: `H3App::handshake`. `client_new` is `h3::client::new`; the driver waits until the
-- connection is idle, and prints the error that it then has, if it is one.
use navar.Base.{◌≡◌, Bool, Option, none, some, Result, ok, err, if◌then◌else◌}
use navar.H3.Connect.{Connection, H3Connection}
use navar.H3.Connect

pub data H3App : Type 0 where
  h3_app : H3App

pub record H3Session (Sender : Type 0) : Type 0 where
  pub sender : Sender

-- `H3Session::clone`; `clone_sender` is the clone of the crate's `SendRequest`.
abbrev pub clone : {Sender : Type 0} → (Sender → Sender) → H3Session Sender → H3Session Sender
clone clone_sender s = record { sender = clone_sender s.sender }

-- `driver_fut`
pub record H3Driver (Driver : Type 0) : Type 0 where
  pub driver : Driver

module _ {C Bidi Send Recv E Driver Sender F : Type 0} (conn : Connection C Bidi Send Recv E) where
  pub with_client : Result F (Driver × Sender) → Result F (H3Session Sender × H3Driver Driver)
  with_client (ok (driver, sender)) = ok (record { sender = sender }, record { driver = driver })
  with_client (err e) = err e

  unfoldable pub handshake :
      (H3Connection conn → Result F (Driver × Sender))
      → H3App
      → C
      → Result F (H3Session Sender × H3Driver Driver)
  unfolding with_client Connect.new
  handshake client_new app c = with_client (client_new (Connect.new conn c))

  pub handshake-made :
      (client_new : H3Connection conn → Result F (Driver × Sender)) (app : H3App) (c : C)
      (driver : Driver) (sender : Sender)
      → client_new (Connect.new conn c) ≡ ok (driver, sender)
      → handshake client_new app c ≡ ok (record { sender = sender }, record { driver = driver })
  unfolding handshake with_client
  handshake-made client_new app c driver sender made = rw made

-- What a driver prints at its end.
abbrev pub prints :
    {Driver H3Err : Type 0} → (Driver → H3Err) → (H3Err → Bool) → H3Driver Driver → Option H3Err
prints wait_idle is_h3_no_error f =
    if is_h3_no_error (wait_idle f.driver) then none else some (wait_idle f.driver)

-- ===== src/Application.antt =====
-- src/application.rs: the traits of application protocols, as records of functions. `Q` is a request and
-- `R` a response; `D` is the future that drives a connection.
use navar.Transport.{Awaited}

pub record Session (E S Q R : Type 0) : Type 0 where
  pub send_request : S → Q → Awaited E R × S

pub record ApplicationPlugin (E A C S D : Type 0) : Type 0 where
  pub handshake : A → C → Awaited E (S × D)

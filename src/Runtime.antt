-- ===== src/Runtime.antt =====
-- The runtimes: the trait `AsyncRuntime` of src/lib.rs, and its instances in navar-tokio/src/lib.rs and
-- navar-mocks/src/lib.rs. Spawning a future changes the world `W`.
pub record AsyncRuntime (W R F : Type 0) : Type 0 where
  pub spawn : R → F → W → W

pub data TokioRuntime : Type 0 where
  tokio_runtime : TokioRuntime

-- `tokio_spawn` is `tokio::spawn`.
abbrev pub tokio : {W F : Type 0} → (F → W → W) → AsyncRuntime W TokioRuntime F
tokio tokio_spawn = record { spawn = λ r future w. tokio_spawn future w }

pub data MockRuntime : Type 0 where
  mock_runtime : MockRuntime

-- The future is dropped.
abbrev pub mock : {W F : Type 0} → AsyncRuntime W MockRuntime F
mock = record { spawn = λ r future w. w }

-- ===== src/H3/Errors.antt =====
-- navar-h3/src/adapter.rs: the errors of `h3::quic` that the adapter makes, for whatever has failed.
pub data ConnectionErrorIncoming : Type 0 where
  application_close : ConnectionErrorIncoming

pub data StreamErrorIncoming : Type 0 where
  connection_error : ConnectionErrorIncoming → StreamErrorIncoming

-- The code of the close is `H3_NO_ERROR`.
abbrev pub conn_closed : ConnectionErrorIncoming
conn_closed = application_close

abbrev pub stream_error : StreamErrorIncoming
stream_error = connection_error conn_closed

-- ===== src/Mocks.antt =====
-- navar-mocks/src/lib.rs: a transport and an application that do nothing, as instances of the traits, and
-- the service that they make.
use navar.Base.{length, ok, ready, pending, []}
use navar.Body.{Body}
use navar.Pool.{Response}
use navar.Application.{Session, ApplicationPlugin}
use navar.Transport.{
  AsyncRead, AsyncWrite, Stream, BidiStream, Connection, TransportPlugin, no_stream_alpn,
  no_connection_alpn,
}

pub data MockStream : Type 0 where
  mock_stream : MockStream

pub data MockConnection : Type 0 where
  mock_connection : MockConnection

pub data MockTransport : Type 0 where
  mock_transport : MockTransport

pub data MockSession : Type 0 where
  mock_session : MockSession

pub data MockApp : Type 0 where
  mock_app : MockApp

-- The driver `async {}`.
pub data NoDriver : Type 0 where
  no_driver : NoDriver

abbrev pub stream : Stream MockStream
stream = record { stream_id = λ s. 0 }

module _ {I : Type 0} where
  -- Reads are at the end at once; writes take everything.
  abbrev pub read : AsyncRead I MockStream
  read = record { poll_read = λ s cap. (ready (ok []), s) }

  abbrev pub write : AsyncWrite I MockStream
  write = record {
    poll_write = λ s buf. (ready (ok (length buf)), s);
    poll_flush = λ s. (ready (ok tt), s);
    poll_close = λ s. (ready (ok tt), s);
  }

  abbrev pub bidi : BidiStream I MockStream MockStream MockStream
  bidi = record {
    stream = stream;
    read = read;
    write = write;
    send = record { stream = stream; write = write };
    recv = record { stream = stream; read = read };
    split = λ s. (s, s);
    alpn_protocol = no_stream_alpn;
  }

-- `E` is `anyhow::Error`. What it would accept never comes.
module _ {E : Type 0} where
  abbrev pub connection : Connection E MockConnection MockStream MockStream MockStream
  connection = record {
    open_bidirectional = λ c. ready (ok mock_stream);
    open_unidirectional = λ c. ready (ok mock_stream);
    accept_bidirectional = λ c. pending;
    accept_unidirectional = λ c. pending;
    alpn_protocol = no_connection_alpn;
  }

  abbrev pub transport : {Uri : Type 0} → TransportPlugin E MockTransport Uri MockConnection
  transport = record { connect = λ t uri. ready (ok mock_connection) }

  -- `Response::new(Empty::new()..boxed())`; `parts` are those of a new response.
  abbrev pub session : {Q P N : Type 0} → P → Session E MockSession Q (Response P (Body N E))
  session parts = record {
    send_request = λ s req. (ready (ok (record { parts = parts; body = [] })), s);
  }

  abbrev pub app : ApplicationPlugin E MockApp MockConnection MockSession NoDriver
  app = record { handshake = λ a conn. ready (ok (mock_session, no_driver)) }

-- ===== src/Host/Stream.antt =====
-- host/src/server/stream.rs: the host's end of a connection to the enclave. Dropping it takes the
-- stream out and spawns a task that asks the enclave to close the session.
use sp1_tee.Prelude.{ℕ, String, Option, none, some}
use sp1_tee.Result.{Result, ok, panic, ◌>>=◌}
use sp1_tee.Io.{Io}
use sp1_tee.Common.Request.{close_session}
use sp1_tee.Common.Communication.{CommunicationError, Transport, Codec}
use sp1_tee.Common.Communication
use sp1_tee.Enclave.Platform.{Platform}
use sp1_tee.Enclave.Server.{Request, Response}

abbrev not_initialized : String
not_initialized = "Stream should be initialized, this is a bug"

module _ (pl : Platform) (t : Transport) (requests : Codec (Request pl))
    (responses : Codec (Response pl)) where
  pub record HostStream : Type 0 where
    pub stream : Option t.Raw

  abbrev pub open_stream : t.Raw → HostStream
  open_stream raw = record { stream = some raw }

  -- `self.stream.as_mut().expect(..)`, and an action on what is there
  on_raw : {E A : Type 0} → Io t.Raw E A → Option t.Raw → Result E A × HostStream
  on_raw m none = (panic not_initialized, record { stream = none })
  on_raw m (some raw) = let (r, raw') = m raw in (r, open_stream raw')

  unfoldable pub new : (cid port : ℕ) → Result CommunicationError HostStream
  new cid port = do stream ← Communication.connect t cid port; ok (open_stream stream)

  unfoldable pub send : Request pl → Io HostStream CommunicationError (Unit {0})
  unfolding on_raw
  send request s = on_raw (Communication.send t requests request) s.stream

  unfoldable pub recv : Io HostStream CommunicationError (Response pl)
  unfolding on_raw
  recv s = on_raw (Communication.recv t responses) s.stream

  close : Option t.Raw → Result ⊥ t.Raw
  close none = panic not_initialized
  close (some raw) = ok (Communication.send t requests close_session raw).1

  -- What is left is the raw stream, behind the spawned task; the task's error is only logged.
  pub drop : HostStream → Result ⊥ t.Raw
  unfolding close
  drop s = close s.stream

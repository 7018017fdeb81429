-- ===== src/Common/Communication.antt =====
-- common/src/communication.rs: messages on a vsock stream, each after its length in four bytes.
-- The socket of tokio-vsock and the encoding of bincode are parameters; a `VsockStream` is its raw
-- stream, since its marker holds nothing.
pub mod Laws
pub mod Sending
pub mod Receiving
pub mod Session
use sp1_tee.Prelude.{ℕ, ◌+◌, ◌%◌, ◌^◌, List, length, ltb, if◌then◌else◌}
use sp1_tee.Result.{Result, ErrorText, map_err}
use sp1_tee.Io.{Io, raise, lift, mapping_err, ◌>>=◌, ◌>>◌}
use sp1_tee.Common.Bytes.{u32_max, to_be_bytes, from_be_bytes}

pub data CommunicationError : Type 0 where
  io : ErrorText → CommunicationError
  bincode : ErrorText → CommunicationError
  message_too_large : CommunicationError

-- A raw stream: `connect`, `write_all` and `read_exact` of the socket library.
pub record Transport : Type 1 where
  pub Raw : Type 0
  pub connect : (cid port : ℕ) → Result ErrorText Raw
  pub write_all : List ℕ → Io Raw ErrorText (Unit {0})
  pub read_exact : ℕ → Io Raw ErrorText (List ℕ)

-- `bincode::serialize` and `bincode::deserialize` at a type of messages.
pub record Codec (A : Type 0) : Type 0 where
  pub serialize : A → Result ErrorText (List ℕ)
  pub deserialize : List ℕ → Result ErrorText A

module _ (t : Transport) where
  open t use {Raw, write_all, read_exact}

  unfoldable pub connect : (cid port : ℕ) → Result CommunicationError Raw
  connect cid port = map_err io (t.connect cid port)

  module _ {Out : Type 0} (out : Codec Out) where
    unfoldable pub send : Out → Io Raw CommunicationError (Unit {0})
    send message = do
      message_bytes ← lift (map_err bincode (out.serialize message))
      if ltb u32_max (length message_bytes) then raise message_too_large else do
        let message_len = to_be_bytes (length message_bytes % 2 ^ 32)
        mapping_err io (write_all message_len)
        mapping_err io (write_all message_bytes)

  module _ {In : Type 0} (inp : Codec In) where
    unfoldable pub recv : Io Raw CommunicationError In
    recv = do
      message_len_buf ← mapping_err io (read_exact 4)
      message_buf ← mapping_err io (read_exact (from_be_bytes message_len_buf))
      lift (map_err bincode (inp.deserialize message_buf))

-- ===== src/Enclave/Connection.antt =====
-- enclave/src/server.rs: `handle_message` and `handle_connection`. The thread of a connection has
-- its stream and the driver of the security module as its state.
pub mod Answers
pub mod Loop
pub mod Fuel
pub mod Waiting
pub mod Typing
use sp1_tee.Prelude.{ℕ, zero, suc, String, true, false, ◌∷◌, [], concat, if◌then◌else◌}
use sp1_tee.Result.{Result, ok, err, panic}
use sp1_tee.Io.{Io, pure, raise, unwrapping, ◌>>=◌, ◌>>◌}
use sp1_tee.Common.Request.{
  EnclaveRequest, print, get_public_key, get_encrypted_signing_key, attest_signing_key, execute,
  set_signing_key, close_session,
}
use sp1_tee.Common.Response.{public_key, error, ack}
use sp1_tee.Common.Communication.{CommunicationError, Transport, Codec, send, recv}
use sp1_tee.Enclave.Platform.{Platform}
use sp1_tee.Enclave.Server
use sp1_tee.Enclave.Server.{Request, Response}

pub data ConnectionState : Type 0 where
  continue close : ConnectionState

-- Why the model of a loop stops early.
pub data Stop : Type 0 where
  out_of_fuel : Stop

abbrev unwrap_message : String
unwrap_message = "called `Result::unwrap()` on an `Err` value"

module _ (pl : Platform) (t : Transport) (requests : Codec (Request pl))
    (responses : Codec (Response pl)) where
  open pl use {Driver, debug_mode, join_error}

  pub record Session : Type 0 where
    pub stream : t.Raw
    pub driver : Driver

  on_stream : {E A : Type 0} → Io t.Raw E A → Io Session E A
  on_stream m s = let (r, stream) = m s.stream in (r, record s { stream = stream })

  -- `stream.send(response).await.unwrap()`
  pub send_unwrap : Response pl → Io Session Stop (Unit {0})
  unfolding on_stream
  send_unwrap response = unwrapping unwrap_message (on_stream (send t responses response))

  -- A task on the blocking pool: a panic in it comes back as an error to its waiter.
  joined : String → Result ⊥ (Response pl) → Response pl
  joined message (ok response) = response
  joined message (err e) = absurd e
  joined message (panic p) = error (concat (message ∷ join_error p ∷ []))

  attest : Server.Server pl → Io Session Stop (Response pl)
  attest server s =
      let (response, driver) = Server.attest_signing_key pl server s.driver in
      (ok response, record s { driver = driver })

  -- In debug mode the answer to `print` is a future that nothing awaits, so it does nothing.
  pub handle_message : Server.Server pl → Request pl → Io Session Stop ConnectionState
  unfolding send_unwrap joined attest
  handle_message server (print message) =
      if debug_mode then pure continue else do send_unwrap ack; pure continue
  handle_message server get_public_key = do
    send_unwrap (public_key (Server.get_public_key pl server))
    pure continue
  handle_message server attest_signing_key = do
    response ← attest server
    send_unwrap response
    pure continue
  handle_message server (execute stdin program cycle_limit) = do
    send_unwrap (
        joined "Join error when executing program: "
          (Server.execute pl server stdin program cycle_limit))
    pure continue
  handle_message server get_encrypted_signing_key = do
    send_unwrap (error "Not implemented")
    pure continue
  handle_message server (set_signing_key _) = do
    send_unwrap (error "Not implemented")
    pure continue
  handle_message server close_session = pure close

  -- The `match` at the end of a round: go on, or leave the loop.
  next : Io Session Stop (Unit {0}) → ConnectionState → Io Session Stop (Unit {0})
  next loop continue = loop
  next loop close = pure tt

  -- The loop of a connection; each round takes at least four bytes off the stream.
  pub handle_connection : ℕ → Server.Server pl → Io Session Stop (Unit {0})
  unfolding on_stream next
  handle_connection zero server = raise out_of_fuel
  handle_connection (suc fuel) server = do
    message ← unwrapping unwrap_message (on_stream (recv t requests))
    state ← handle_message server message
    next (handle_connection fuel server) state

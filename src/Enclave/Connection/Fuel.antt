-- ===== src/Enclave/Connection/Fuel.antt =====
-- enclave/src/server.rs: the fuel of `handle_connection`. Each round takes bytes off the stream.
use sp1_tee.Prelude.{ℕ, zero, suc, ◌<◌, ◌≡◌, refl, ◌≢◌, Bool-cases, inl, inr, List, arith, length}
use sp1_tee.Result.{err, expect-ne-err, expect-eq-ok}
use sp1_tee.Io.{Io, pure, ◌>>◌, unwrapping, >>=-keep, >>=-ne-err}
use sp1_tee.Common.Request.{
  print, get_public_key, get_encrypted_signing_key, attest_signing_key, execute, set_signing_key,
  close_session,
}
use sp1_tee.Common.Response.{ack}
use sp1_tee.Common.Communication.{Transport, Codec, send, recv}
use sp1_tee.Common.Communication.Laws.{PipeLaws, IsFed}
use sp1_tee.Common.Communication.Sending.{send_keep}
use sp1_tee.Common.Communication.Receiving.{recv_shrinks}
use sp1_tee.Enclave.Platform.{Platform}
use sp1_tee.Enclave.Server
use sp1_tee.Enclave.Server.{Request, Response}
use sp1_tee.Enclave.Connection.{
  ConnectionState, continue, close, Stop, out_of_fuel, Session, send_unwrap, handle_message,
  handle_connection, on_stream, next, unwrap_message,
}

module _ (pl : Platform) (t : Transport) (requests : Codec (Request pl))
    (responses : Codec (Response pl)) (server : Server.Server pl) where
  abbrev Thread : Type 0
  Thread = Session pl t requests responses

  abbrev handle : Request pl → Io Thread Stop ConnectionState
  handle = handle_message pl t requests responses server

  abbrev respond : Response pl → Io Thread Stop ConnectionState
  respond r = do send_unwrap pl t requests responses r; pure continue

  respond_keep :
      {A : Type 0} (view : t.Raw → A)
      → ((bytes : List ℕ) (s : t.Raw) → view (t.write_all bytes s).1 ≡ view s)
      → (r : Response pl) (s : Thread) → view (respond r s).1.stream ≡ view s.stream
  unfolding send_unwrap
  respond_keep view keep r s =
      >>=-keep (λ (x : Thread). view x.stream) (send_unwrap pl t requests responses r)
        (λ _. pure continue) s (send_keep t responses view keep r s.stream) (λ _. refl)

  respond-ne-err : (r : Response pl) (s : Thread) → (respond r s).0 ≢ err out_of_fuel
  unfolding send_unwrap
  respond-ne-err r s =
      >>=-ne-err out_of_fuel (send_unwrap pl t requests responses r) (λ _. pure continue) s
        (expect-ne-err _ (send t responses r s.stream).0 out_of_fuel) (λ _ _ h. cc)

  -- What the writes of a stream leave alone, a message leaves alone.
  pub handle_message_keep :
      {A : Type 0} (view : t.Raw → A)
      → ((bytes : List ℕ) (s : t.Raw) → view (t.write_all bytes s).1 ≡ view s)
      → (m : Request pl) (s : Thread) → view (handle m s).1.stream ≡ view s.stream
  unfolding handle_message
  handle_message_keep view keep (print _) s = elim (Bool-cases pl.debug_mode) [
    | inl on ↦ rw on
    | inr off ↦ rw off (respond_keep view keep ack s)
  ]
  handle_message_keep view keep get_public_key s = respond_keep view keep _ s
  handle_message_keep view keep get_encrypted_signing_key s = respond_keep view keep _ s
  handle_message_keep view keep attest_signing_key s = respond_keep view keep _ _
  handle_message_keep view keep (execute _ _ _) s = respond_keep view keep _ s
  handle_message_keep view keep (set_signing_key _) s = respond_keep view keep _ s
  handle_message_keep view keep close_session s = refl

  handle_message-ne-err : (m : Request pl) (s : Thread) → (handle m s).0 ≢ err out_of_fuel
  unfolding handle_message
  handle_message-ne-err (print _) s = elim (Bool-cases pl.debug_mode) [
    | inl on ↦ rw on (λ h. cc)
    | inr off ↦ rw off (respond-ne-err ack s)
  ]
  handle_message-ne-err get_public_key s = respond-ne-err _ s
  handle_message-ne-err get_encrypted_signing_key s = respond-ne-err _ s
  handle_message-ne-err attest_signing_key s = respond-ne-err _ _
  handle_message-ne-err (execute _ _ _) s = respond-ne-err _ s
  handle_message-ne-err (set_signing_key _) s = respond-ne-err _ s
  handle_message-ne-err close_session s = λ h. cc

  next-ne-err :
      (loop : Io Thread Stop (Unit {0})) (state : ConnectionState) (s : Thread)
      → (loop s).0 ≢ err out_of_fuel
      → (next pl t requests responses loop state s).0 ≢ err out_of_fuel
  unfolding next
  next-ne-err loop continue s h = h
  next-ne-err loop close s h = λ e. cc

  module _ (p : PipeLaws t) (fed : IsFed t p) where
    -- On a stream whose writes do not change what is to be read, `handle_connection` never runs out
    -- of a fuel that is more than the number of bytes to be read, whatever the bytes are: the loop
    -- ends on its own or by a panic.
    pub handle_connection_ends :
        (fuel : ℕ) (s : Thread)
        → length (p.pending s.stream) < fuel
        → (handle_connection pl t requests responses fuel server s).0 ≢ err out_of_fuel
    unfolding handle_connection
    handle_connection_ends zero s h = elim h [ ]
    handle_connection_ends (suc fuel) s h =
        >>=-ne-err out_of_fuel
          (unwrapping unwrap_message (on_stream pl t requests responses (recv t requests))) _ s
          (expect-ne-err _ (recv t requests s.stream).0 out_of_fuel)
          λ m got.
            let s₁ : Thread = record s { stream = (recv t requests s.stream).1 } in
            let shrunk = recv_shrinks t p requests s.stream m (expect-eq-ok unwrap_message _ got) in
            >>=-ne-err out_of_fuel (handle m) _ s₁ (handle_message-ne-err m s₁) λ state _.
              let kept = handle_message_keep p.pending fed.pending-write_all m s₁ in
              next-ne-err _ state (handle m s₁).1
                (handle_connection_ends fuel (handle m s₁).1 (rw kept (omega arith)))

-- ===== src/Tests/Protocol.antt =====
-- The framing and the enclave's conversation at concrete messages.
use sp1_tee.Prelude.{◌⊎◌, ℕ, ◌≡◌, ◌≢◌, refl, List, [], ◌∷◌, ◌++◌, arith}
use sp1_tee.Common.Response.{EnclaveResponse, type_of, public_key}
use sp1_tee.Enclave.Connection.{
  ConnectionState, handle_message, Session, out_of_fuel, handle_connection,
}
use sp1_tee.Enclave.Connection.Answers.{answer, answers}
use sp1_tee.Enclave.Connection.Typing.{handle_message-kind}
use sp1_tee.Result.{ok, err, ErrorText}
use sp1_tee.Common.Bytes.{to_be_bytes}
use sp1_tee.Common.Request.{EnclaveRequest, get_public_key, attest_signing_key, close_session}
use sp1_tee.Common.Communication.{Codec, io, send, recv}
use sp1_tee.Common.Communication.Sending.{frame}
use sp1_tee.Common.Communication.Receiving.{recv_cut}
use sp1_tee.Common.Communication.Session.{send_all, recv_many, recv_many-send_all}
use sp1_tee.Enclave.Connection.Loop.{Framed, nil, cons, conversation}
use sp1_tee.Enclave.Connection.Fuel.{handle_connection_ends}
use sp1_tee.Tests.World.{small, server}
use sp1_tee.Tests.Encoding.{requests, request_laws, responses}
use sp1_tee.Tests.Sockets.{Pipe, pipe, pipe_laws, pipe_live, pipe_fed}

-- A message that is its own bytes.
abbrev plain : Codec (List ℕ)
plain = record { serialize = λ bytes. ok bytes; deserialize = λ bytes. ok bytes }

abbrev two_requests : List (EnclaveRequest ℕ)
two_requests = get_public_key ∷ attest_signing_key ∷ []

two_frames :
    (send_all requests pipe two_requests ([], [])).1.0 ≡ 0 ∷ 0 ∷ 0 ∷ 1 ∷ 0 ∷ 0 ∷ 0 ∷ 0 ∷ 1 ∷ 1 ∷ []
unfolding send_all send to_be_bytes
two_frames = refl

recv_many-send_all_example :
    ((recv_many requests pipe 2 ([], 0 ∷ 0 ∷ 0 ∷ 1 ∷ 0 ∷ 0 ∷ 0 ∷ 0 ∷ 1 ∷ 1 ∷ 7 ∷ [])).0
      ≡ ok two_requests)
    × ((recv_many requests pipe 2 ([], 0 ∷ 0 ∷ 0 ∷ 1 ∷ 0 ∷ 0 ∷ 0 ∷ 0 ∷ 1 ∷ 1 ∷ 7 ∷ [])).1.1
        ≡ 7 ∷ [])
recv_many-send_all_example =
    recv_many-send_all requests request_laws pipe pipe_laws pipe pipe_laws two_requests ([], [])
      ([], 0 ∷ 0 ∷ 0 ∷ 1 ∷ 0 ∷ 0 ∷ 0 ∷ 0 ∷ 1 ∷ 1 ∷ 7 ∷ [])
      (0 ∷ 0 ∷ 0 ∷ 1 ∷ 0 ∷ 0 ∷ 0 ∷ 0 ∷ 1 ∷ 1 ∷ []) (7 ∷ []) (unfold send_all send in refl)
      two_frames refl

recv_cut_example :
    (e : ErrorText) × ((recv pipe plain ([], to_be_bytes 3 ++ (1 ∷ 2 ∷ []))).0 ≡ err (io e))
recv_cut_example =
    recv_cut pipe pipe_laws plain 3 (1 ∷ 2 ∷ []) ([], to_be_bytes 3 ++ (1 ∷ 2 ∷ [])) (omega arith)
      refl (omega arith)

abbrev thread : Pipe → Session small pipe requests responses
thread s = record { stream = s; driver = [] }

abbrev key_frame : List ℕ
key_frame = frame (0 ∷ [])

abbrev close_frame : List ℕ
close_frame = frame (2 ∷ [])

one-Framed : Framed requests (get_public_key ∷ []) (key_frame ++ [])
one-Framed = cons (0 ∷ []) refl (omega arith) nil

one_answered :
    Framed responses (answers small server (get_public_key ∷ []) []).0 (frame (0 ∷ 9 ∷ []) ++ [])
unfolding answers
one_answered = cons (0 ∷ 9 ∷ []) refl (omega arith) nil

not_close : ◌≢◌ {A = EnclaveRequest ℕ} get_public_key close_session
not_close e = cc

conversation_example :
    (s' : Session small pipe requests responses) × (handle_connection small pipe requests responses
        5 server
        (thread ([], (key_frame ++ []) ++ (close_frame ++ [])))
      ≡ (ok tt, s'))
    × (s'.stream.1 ≡ [])
    × (s'.stream.0 ≡ [] ++ (frame (0 ∷ 9 ∷ []) ++ []))
    × (s'.driver ≡ (answers small server (get_public_key ∷ []) []).1)
conversation_example =
    conversation small pipe pipe_laws requests request_laws responses pipe_live pipe_fed server refl
      (get_public_key ∷ []) (key_frame ++ []) (frame (0 ∷ 9 ∷ []) ++ []) (2 ∷ []) [] 5
      (thread ([], (key_frame ++ []) ++ (close_frame ++ []))) (not_close, tt) one-Framed
      one_answered refl (omega arith) refl (omega arith)

handle_message-kind_example :
    let (outcome, s') =
      handle_message small pipe requests responses server get_public_key (thread ([], [])) in
    (r : EnclaveResponse ℕ ℕ) × (bytes : List ℕ) × (outcome ≡ ok ConnectionState.continue)
    × (responses.serialize r ≡ ok bytes)
    × (s'.stream.0 ≡ [] ++ frame bytes)
    × ((type_of r ≡ "PublicKey") ⊎ (type_of r ≡ "Error"))
handle_message-kind_example =
    handle_message-kind small pipe pipe_laws requests responses pipe_live pipe_fed server refl
      get_public_key (thread ([], []))
      (public_key 9, 0 ∷ 9 ∷ [], unfold answer in refl, refl, omega arith)

handle_connection_ends_example :
    (handle_connection small pipe requests responses 9 server
      (thread ([], 0 ∷ 0 ∷ 0 ∷ 7 ∷ 1 ∷ []))).0
    ≢ err out_of_fuel
handle_connection_ends_example =
    handle_connection_ends small pipe requests responses server pipe_laws pipe_fed 9
      (thread ([], 0 ∷ 0 ∷ 0 ∷ 7 ∷ 1 ∷ [])) (omega arith)

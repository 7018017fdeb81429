-- ===== src/Deployment/Link.antt =====
-- The two ends of a connection. The host's end is served by a thread of the enclave, which reads
-- what the host has written and whose writings the host reads.
use sp1_tee.Prelude.{ℕ, suc, ◌≤◌, ◌≡◌, ap, ◌∙◌, false, List, [], ◌++◌, arith, length, length-append}
use sp1_tee.Result.{ok}
use sp1_tee.Common.Bytes.{u32_max, to_be_bytes}
use sp1_tee.Common.Communication.{Transport, Codec}
use sp1_tee.Common.Communication.Laws.{PipeLaws, CodecLaws, IsLive, IsFed, IsServed}
use sp1_tee.Common.Communication.Sending.{frame}
use sp1_tee.Enclave.Platform.{Platform}
use sp1_tee.Enclave.Server.{Server, Request, Response}
use sp1_tee.Enclave.Connection.{Session, handle_connection}
use sp1_tee.Enclave.Connection.Answers.{answers}
use sp1_tee.Enclave.Connection.Loop.{Framed, nil, cons, NoClose}
use sp1_tee.Enclave.Connection.Waiting.{sent-waiting}

-- A message that serializes to what a frame can hold.
pub record Fits {M : Type 0} (c : Codec M) (m : M) : Type 0 where
  pub bytes : List ℕ
  pub serialized : c.serialize m ≡ ok bytes
  pub small : length bytes ≤ u32_max

module _ (pl : Platform) (requests : Codec (Request pl)) (responses : Codec (Response pl)) where
  -- A running enclave: its server, and the socket on which it accepts connections. `accept` is the
  -- stream of a connection on which the host writes these bytes.
  pub record Running : Type 1 where
    pub server : Server pl
    pub driver : pl.Driver
    pub release : pl.debug_mode ≡ false
    pub socket : Transport
    pub pipe : PipeLaws socket
    pub live : IsLive socket
    pub fed : IsFed socket pipe
    pub accept : List ℕ → socket.Raw
    pub accept_pending : (bytes : List ℕ) → pipe.pending (accept bytes) ≡ bytes
    pub accept_sent : (bytes : List ℕ) → pipe.sent (accept bytes) ≡ []

  -- What the enclave has written when it has been sent these bytes.
  pub enclave_peer : Running → List ℕ → List ℕ
  enclave_peer e bytes =
      e.pipe.sent
        (handle_connection pl e.socket requests responses (suc (length bytes)) e.server
          start).1.stream
    where
      start : Session pl e.socket requests responses
      start = record { stream = e.accept bytes; driver = e.driver }

  -- The host's socket, all of whose connections lead to that enclave.
  pub record Linked (e : Running) (t : Transport) : Type 0 where
    pub pipe : PipeLaws t
    pub live : IsLive t
    pub served : IsServed t pipe (enclave_peer e)
    pub raw : t.Raw
    pub connects : (cid port : ℕ) → t.connect cid port ≡ ok raw
    pub fresh : pipe.sent raw ≡ []
    pub unread : served.taken raw ≡ 0

  length-Framed :
      {M : Type 0} (c : Codec M) {ms : List M} {wire : List ℕ}
      → Framed c ms wire
      → length ms ≤ length wire
  unfolding frame to_be_bytes
  length-Framed c nil = omega arith
  length-Framed c (cons {wire = wire} bytes e h f) =
      omega (arith, length-Framed c f, length-append bytes wire)

  -- The enclave's writings are the answers to the host's messages.
  pub enclave_peer-answers :
      (request_laws : CodecLaws requests) (e : Running) (ms : List (Request pl)) (wire out : List ℕ)
      → NoClose pl ms
      → Framed requests ms wire
      → Framed responses (answers pl e.server ms e.driver).0 out
      → enclave_peer e wire ≡ out
  unfolding enclave_peer
  enclave_peer-answers request_laws e ms wire out n f g =
      let bound = length-Framed requests f in
      sent-waiting pl e.socket e.pipe requests request_laws responses e.live e.fed e.server
        e.release ms wire out (suc (length wire)) _ n f g (e.accept_pending wire) (omega arith)
      ∙ ap (λ (bs : List ℕ). bs ++ out) (e.accept_sent wire)

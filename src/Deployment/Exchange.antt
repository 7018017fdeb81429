-- ===== src/Deployment/Exchange.antt =====
-- One request of the host over a new connection, and the enclave's answer to it.
use sp1_tee.Prelude.{◌≡◌, ap, ◌∙◌, sym, ◌≢◌, [], ◌∷◌, ◌++◌, append-nil, some}
use sp1_tee.Result.{ok}
use sp1_tee.Common.Request.{close_session}
use sp1_tee.Common.Communication.{Transport, Codec, send}
use sp1_tee.Common.Communication.Laws.{CodecLaws}
use sp1_tee.Common.Communication.Sending.{frame, send_live, send_keep}
use sp1_tee.Common.Communication.Receiving.{recv_ok}
use sp1_tee.Enclave.Platform.{Platform}
use sp1_tee.Enclave.Server.{Request, Response}
use sp1_tee.Enclave.Connection.Answers.{answer, answers, answers-cons}
use sp1_tee.Enclave.Connection.Loop.{Framed, nil, cons}
use sp1_tee.Host.Platform.{HostPlatform}
use sp1_tee.Host.Stream.{HostStream, open_stream}
use sp1_tee.Host.Stream
use sp1_tee.Host.Handlers.{exchange}
use sp1_tee.Deployment.Link.{Fits, Running, Linked, enclave_peer, enclave_peer-answers}

module _ (pl : Platform) (h : HostPlatform pl) (requests : Codec (Request pl))
    (request_laws : CodecLaws requests) (responses : Codec (Response pl))
    (response_laws : CodecLaws responses) (e : Running pl requests responses) (t : Transport)
    (link : Linked pl requests responses e t) where
  open link use {pipe, live, served, raw, fresh, unread}

  -- The enclave's writings after one request: its answer.
  one_answer :
      (m : Request pl) (r : Response pl)
      → m ≢ close_session
      → (answer pl e.server m e.driver).0 ≡ some r
      → (fm : Fits requests m) (fr : Fits responses r)
      → enclave_peer pl requests responses e (frame fm.bytes) ≡ frame fr.bytes
  unfolding answers
  one_answer m r n a fm fr =
      let out : Framed responses (r ∷ []) (frame fr.bytes ++ []) =
        cons fr.bytes fr.serialized fr.small nil in
      ap (enclave_peer pl requests responses e) (sym (append-nil _))
      ∙ enclave_peer-answers pl requests responses request_laws e (m ∷ []) _ _ (n, tt)
          (cons fm.bytes fm.serialized fm.small nil)
          (rw (answers-cons pl e.server m [] e.driver r a) out)
      ∙ append-nil _

  -- It is what the host can read once its request is written.
  arrived :
      (m : Request pl) (r : Response pl)
      → m ≢ close_session
      → (answer pl e.server m e.driver).0 ≡ some r
      → (fm : Fits requests m) (fr : Fits responses r)
      → pipe.sent (send t requests m raw).1 ≡ pipe.sent raw ++ frame fm.bytes
      → pipe.pending (send t requests m raw).1 ≡ frame fr.bytes ++ []
  arrived m r n a fm fr sent =
      let s = (send t requests m raw).1 in
      let untouched : served.taken s ≡ 0 =
        send_keep t requests served.taken served.taken-write_all m raw ∙ unread in
      served.served s untouched
      ∙ ap (enclave_peer pl requests responses e) (sent ∙ rw fresh)
      ∙ one_answer m r n a fm fr
      ∙ sym (append-nil _)

  -- The host gets the answer that the protocol promises to its request.
  pub exchange-answer :
      (m : Request pl) (r : Response pl)
      → m ≢ close_session
      → (answer pl e.server m e.driver).0 ≡ some r
      → Fits requests m
      → Fits responses r
      → (exchange pl h t requests responses m (open_stream pl t requests responses raw)).0 ≡ ok r
  unfolding exchange Stream.send Stream.recv
  exchange-answer m r n a fm fr =
      let (done, sent) = send_live t requests pipe live m fm.bytes raw fm.serialized fm.small in
      let (got, _, _) =
        recv_ok t pipe responses response_laws r fr.bytes [] (send t requests m raw).1 fr.serialized
          fr.small (arrived m r n a fm fr sent) in
      rw (done, got)

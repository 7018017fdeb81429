-- ===== src/Enclave/Tasks/Serving.antt =====
-- enclave/src/server.rs: how far the task of one connection is with the messages of its host.
use sp1_tee.Prelude.{
  ℕ, ◌≤◌, ◌≡◌, refl, sym, ◌∙◌, ◌⊎◌, inl, inr, List, [], ◌∷◌, ◌++◌, append_assoc, Option, some, none,
  length,
}
use sp1_tee.Result.{ok}
use sp1_tee.Common.Bytes.{u32_max}
use sp1_tee.Common.Request.{close_session}
use sp1_tee.Common.Communication.{Transport, Codec, recv}
use sp1_tee.Common.Communication.Laws.{PipeLaws, CodecLaws}
use sp1_tee.Common.Communication.Sending.{frame}
use sp1_tee.Common.Communication.Receiving.{recv_ok}
use sp1_tee.Enclave.Platform.{Platform}
use sp1_tee.Enclave.Server
use sp1_tee.Enclave.Server.{Request, Response}
use sp1_tee.Enclave.Connection.Answers.{Fits, answer}
use sp1_tee.Enclave.Connection.Loop.{Framed, Framed-cons, Framed-nil}
use sp1_tee.Enclave.Tasks.{
  job_request, Task, unaccepted, receiving, handling, waiting, executing, replying, ended,
  answer_of, received, after_recv, System,
}

module _ (pl : Platform) (server : Server.Server pl) (responses : Codec (Response pl)) where
  -- Messages whose answers all fit in a frame, which `close_session` has not.
  abbrev pub Answerable : List (Request pl) → Type 0
  Answerable [] = Unit
  Answerable (m ∷ ms) =
      ((d : pl.Driver) → Fits pl responses (answer pl server m d).0) × Answerable ms

  -- The frames of the promised answers to these messages, one for each, in their order.
  pub data Wrote : List (Request pl) → List ℕ → Type 0 where
    nothing : Wrote [] []
    answered :
        {done : List (Request pl)} {out : List ℕ} (m : Request pl) (d : pl.Driver) (r : Response pl)
        (bytes : List ℕ)
        → Wrote done out
        → (answer pl server m d).0 ≡ some r
        → responses.serialize r ≡ ok bytes
        → length bytes ≤ u32_max
        → Wrote (done ++ (m ∷ [])) (out ++ frame bytes)

module _ (pl : Platform) (t : Transport) (p : PipeLaws t) (requests : Codec (Request pl))
    (responses : Codec (Response pl)) (server : Server.Server pl) where
  abbrev pub Connection : Type 0
  Connection = Task pl t requests responses

  abbrev pub Tasks : Type 0
  Tasks = System pl t requests responses

  abbrev pub stream_of : Connection → Option t.Raw
  stream_of unaccepted = none
  stream_of (receiving raw) = some raw
  stream_of (handling m raw) = some raw
  stream_of (waiting j raw) = some raw
  stream_of (executing j raw) = some raw
  stream_of (replying j r raw) = some raw
  stream_of (ended raw) = some raw

  -- What a host that sends some messages and closes has put on a stream.
  pub record Sent (raw : t.Raw) (ms : List (Request pl)) : Type 0 where
    pub wire : List ℕ
    pub closing : List ℕ
    pub rest : List ℕ
    pub frames : Framed requests ms wire
    pub serialized : requests.serialize close_session ≡ ok closing
    pub fits : length closing ≤ u32_max
    pub pending : p.pending raw ≡ wire ++ (frame closing ++ rest)

  module _ (first : t.Raw) (ms : List (Request pl)) where
    -- How far a connection is with the messages.
    pub record Progress (raw : t.Raw) (todo : List (Request pl)) : Type 0 where
      pub done : List (Request pl)
      pub out : List ℕ
      pub split : ms ≡ done ++ todo
      pub wrote : Wrote pl server responses done out
      pub sent : p.sent raw ≡ p.sent first ++ out
      pub able : Answerable pl server responses todo

    -- With a message in hand.
    abbrev pub Holds : Request pl → t.Raw → Type 0
    Holds m raw = (todo : List (Request pl)) × Progress raw (m ∷ todo) × Sent raw todo

    abbrev pub Serves : Connection → Type 0
    Serves unaccepted = ⊥
    Serves (receiving raw) = (todo : List (Request pl)) × Progress raw todo × Sent raw todo
    Serves (handling m raw) = Holds m raw ⊎ ((m ≡ close_session) × Progress raw [])
    Serves (waiting j raw) = Holds (job_request pl j) raw
    Serves (executing j raw) = Holds (job_request pl j) raw
    Serves (replying j r raw) = (r ≡ answer_of pl server j) × Holds (job_request pl j) raw
    Serves (ended raw) = Progress raw []

module _ (pl : Platform) (t : Transport) (p : PipeLaws t) (requests : Codec (Request pl))
    (responses : Codec (Response pl)) (server : Server.Server pl) (first : t.Raw)
    (ms : List (Request pl)) where
  open pl use {Driver}

  abbrev Done : t.Raw → List (Request pl) → Type 0
  Done = Progress pl t p requests responses server first ms

  abbrev Waits : t.Raw → List (Request pl) → Type 0
  Waits = Sent pl t p requests responses server

  pub Progress-keep :
      (raw raw' : t.Raw) (todo : List (Request pl))
      → Done raw todo
      → p.sent raw' ≡ p.sent raw
      → Done raw' todo
  Progress-keep raw raw' todo pr e = record {
    done = pr.done;
    out = pr.out;
    split = pr.split;
    wrote = pr.wrote;
    sent = e ∙ pr.sent;
    able = pr.able;
  }

  pub Progress-answered :
      (raw raw' : t.Raw) (m : Request pl) (todo : List (Request pl)) (d : Driver) (r : Response pl)
      (bytes : List ℕ)
      → Done raw (m ∷ todo)
      → (answer pl server m d).0 ≡ some r
      → responses.serialize r ≡ ok bytes
      → length bytes ≤ u32_max
      → p.sent raw' ≡ p.sent raw ++ frame bytes
      → Done raw' todo
  Progress-answered raw raw' m todo d r bytes pr a e fits sent = record {
    done = pr.done ++ (m ∷ []);
    out = pr.out ++ frame bytes;
    split = pr.split ∙ sym (append_assoc pr.done (m ∷ []) todo);
    wrote = answered m d r bytes pr.wrote a e fits;
    sent = sent ∙ rw pr.sent (append_assoc (p.sent first) pr.out (frame bytes));
    able = pr.able.1;
  }

  pub Sent-keep :
      (raw raw' : t.Raw) (todo : List (Request pl))
      → Waits raw todo
      → p.pending raw' ≡ p.pending raw
      → Waits raw' todo
  Sent-keep raw raw' todo h e = record {
    wire = h.wire;
    closing = h.closing;
    rest = h.rest;
    frames = h.frames;
    serialized = h.serialized;
    fits = h.fits;
    pending = e ∙ h.pending;
  }

  -- What `recv` makes of the next message, and of the end.
  pub receive_message :
      (raw : t.Raw) (m : Request pl) (todo : List (Request pl))
      → CodecLaws requests
      → Done raw (m ∷ todo)
      → Waits raw (m ∷ todo)
      → (raw' : t.Raw) × (after_recv pl t requests responses raw ≡ handling m raw')
        × Done raw' (m ∷ todo)
        × Waits raw' todo
  unfolding received
  receive_message raw m todo request_laws pr h =
      let (bytes, tail, e, fits, frames, cut) = Framed-cons requests m todo h.wire h.frames in
      let (got, q, kept) =
        recv_ok t p requests request_laws m bytes (tail ++ (frame h.closing ++ h.rest)) raw e fits
          (h.pending ∙ rw cut (append_assoc (frame bytes) tail (frame h.closing ++ h.rest))) in
      let ahead : Waits (recv t requests raw).1 todo = record {
        wire = tail;
        closing = h.closing;
        rest = h.rest;
        frames = frames;
        serialized = h.serialized;
        fits = h.fits;
        pending = q;
      } in
      (_, rw got refl, Progress-keep raw (recv t requests raw).1 (m ∷ todo) pr kept, ahead)

  pub receive_close :
      (raw : t.Raw)
      → CodecLaws requests
      → Done raw []
      → Waits raw []
      → (raw' : t.Raw) × (after_recv pl t requests responses raw ≡ handling close_session raw')
        × Done raw' []
  unfolding received
  receive_close raw request_laws pr h =
      let empty = Framed-nil requests h.wire h.frames in
      let (got, q, kept) =
        recv_ok t p requests request_laws close_session h.closing h.rest raw h.serialized h.fits
          (rw empty at h.pending) in
      (_, rw got refl, Progress-keep raw (recv t requests raw).1 [] pr kept)

  pub receive-Serves :
      (raw : t.Raw) (todo : List (Request pl))
      → CodecLaws requests
      → Done raw todo
      → Waits raw todo
      → Serves pl t p requests responses server first ms (after_recv pl t requests responses raw)
  receive-Serves raw [] request_laws pr h =
      let (raw', at_end, pr') = receive_close raw request_laws pr h in rw at_end (inr (refl, pr'))
  receive-Serves raw (m ∷ todo) request_laws pr h =
      let (raw', at_m, pr', h') = receive_message raw m todo request_laws pr h in
      rw at_m (inl (todo, pr', h'))

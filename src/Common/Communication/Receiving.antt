-- ===== src/Common/Communication/Receiving.antt =====
-- common/src/communication.rs: `VsockStream::recv`, what it takes off the stream and when it fails.
use native.Mathlib.Decide.{dec_lt}
use sp1_tee.Prelude.{
  ℕ, ◌+◌, ◌≤◌, ◌<◌, ◌≡◌, refl, ap, ◌∙◌, List, ◌++◌, append_assoc, arith, length, length-append,
  take, drop, take-append, drop-append, length-drop,
}
use sp1_tee.Result.{ok, err, ErrorText, map_err, map_err-eq-ok}
use sp1_tee.Io.{mapping_err, >>=-keep, >>=-eq-ok}
use sp1_tee.Common.Bytes.{
  u32_max, to_be_bytes, from_be_bytes, length-to_be_bytes, from_be_bytes-to_be_bytes,
}
use sp1_tee.Common.Communication.{io, bincode, Transport, Codec, recv}
use sp1_tee.Common.Communication.Laws.{PipeLaws, CodecLaws}
use sp1_tee.Common.Communication.Sending.{frame}

module _ (t : Transport) (p : PipeLaws t) where
  -- A read of bytes that are there, in the form in which a frame has them.
  read_front :
      (front rest : List ℕ) (n : ℕ) (s : t.Raw)
      → p.pending s ≡ front ++ rest
      → length front ≡ n
      → ((t.read_exact n s).0 ≡ ok front) × (p.pending (t.read_exact n s).1 ≡ rest)
  read_front front rest n s e l =
      let enough : n ≤ length (p.pending s) = rw (e, length-append front rest) (omega arith) in
      let (r, q) = p.read_enough n s enough in
      (
        r ∙ ap (λ (bs : List ℕ). ok (take n bs)) e ∙ rw (← l) (ap ok (take-append front rest)),
        q ∙ ap (λ (bs : List ℕ). drop n bs) e ∙ rw (← l) (drop-append front rest),
      )

  -- A read that succeeds takes its bytes off the stream.
  read_ok :
      (n : ℕ) (bytes : List ℕ) (s : t.Raw)
      → (t.read_exact n s).0 ≡ ok bytes
      → length (p.pending (t.read_exact n s).1) + n ≡ length (p.pending s)
  read_ok n bytes s h = elim (dec_lt (length (p.pending s)) n) [
    | yes short ↦ let (e, r) = p.read_short n s short in cc
    | no enough ↦
        let (_, left) = p.read_enough n s (omega arith) in
        rw left (length-drop n (p.pending s) (omega arith))
  ]

  module _ {In : Type 0} (inp : Codec In) where
    recv-frame_bytes :
        (bytes rest : List ℕ) (s : t.Raw)
        → length bytes ≤ u32_max
        → p.pending s ≡ frame bytes ++ rest
        → ((recv t inp s).0 ≡ map_err bincode (inp.deserialize bytes))
          × (p.pending (recv t inp s).1 ≡ rest)
          × (p.sent (recv t inp s).1 ≡ p.sent s)
    unfolding recv frame
    recv-frame_bytes bytes rest s fits e =
        let (r, q) =
          read_front (to_be_bytes (length bytes)) (bytes ++ rest) 4 s
            (e ∙ append_assoc (to_be_bytes (length bytes)) bytes rest) (length-to_be_bytes _) in
        let (r', q') = read_front bytes rest (length bytes) (t.read_exact 4 s).1 q refl in
        rw (r, from_be_bytes-to_be_bytes (length bytes) fits, r')
          (refl, q', p.sent-read_exact _ _ ∙ p.sent-read_exact 4 s)

    -- What was serialized and framed is received, and the stream stands behind it.
    pub recv_ok :
        CodecLaws inp
        → (message : In) (bytes rest : List ℕ) (s : t.Raw) → inp.serialize message ≡ ok bytes
        → length bytes ≤ u32_max
        → p.pending s ≡ frame bytes ++ rest
        → ((recv t inp s).0 ≡ ok message)
          × (p.pending (recv t inp s).1 ≡ rest)
          × (p.sent (recv t inp s).1 ≡ p.sent s)
    recv_ok c message bytes rest s w fits e =
        let (r, q, kept) = recv-frame_bytes bytes rest s fits e in
        (r ∙ ap (map_err bincode) (c.round_trip message bytes w), q, kept)

    -- Where the stream ends before the length, `recv` fails.
    pub recv_no_length :
        (s : t.Raw) → length (p.pending s) < 4 → (e : ErrorText) × ((recv t inp s).0 ≡ err (io e))
    unfolding recv
    recv_no_length s h = let (e, r) = p.read_short 4 s h in (e, rw r)

    -- If a stream holds the four bytes of a length and then fewer bytes than that length, `recv`
    -- fails with an I/O error.
    pub recv_cut :
        (n : ℕ) (part : List ℕ) (s : t.Raw)
        → n ≤ u32_max
        → p.pending s ≡ to_be_bytes n ++ part
        → length part < n
        → (e : ErrorText) × ((recv t inp s).0 ≡ err (io e))
    unfolding recv
    recv_cut n part s fits q h =
        let (r, q') = read_front (to_be_bytes n) part 4 s q (length-to_be_bytes n) in
        let short : length (p.pending (t.read_exact 4 s).1) < n = rw q' h in
        let (e, r') = p.read_short n (t.read_exact 4 s).1 short in
        (e, rw (r, from_be_bytes-to_be_bytes n fits, r'))

    -- Whatever comes of it, `recv` writes nothing.
    pub sent-recv : (s : t.Raw) → p.sent (recv t inp s).1 ≡ p.sent s
    unfolding recv
    sent-recv s =
        >>=-keep p.sent (mapping_err io (t.read_exact 4)) _ s (p.sent-read_exact 4 s) λ buf.
          >>=-keep p.sent (mapping_err io (t.read_exact (from_be_bytes buf))) _ _
            (p.sent-read_exact _ _) (λ _. refl)

    -- A `recv` that returns a message has taken at least the four bytes of its length.
    pub recv_shrinks :
        (s : t.Raw) (m : In)
        → (recv t inp s).0 ≡ ok m
        → length (p.pending (recv t inp s).1) + 4 ≤ length (p.pending s)
    unfolding recv
    recv_shrinks s m h =
        let (buf, e, step) = >>=-eq-ok (mapping_err io (t.read_exact 4)) _ s h in
        let (body, e', step') =
          >>=-eq-ok (mapping_err io (t.read_exact (from_be_bytes buf))) _ (t.read_exact 4 s).1
            (rw step at h) in
        let first = read_ok 4 buf s (map_err-eq-ok io _ e) in
        let second = read_ok (from_be_bytes buf) body _ (map_err-eq-ok io _ e') in
        rw (step, step') (omega arith)

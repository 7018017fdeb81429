-- ===== src/Common/Communication/Sending.antt =====
-- `VsockStream::send`: what it writes, and when it refuses.
use native.Mathlib.Nat.{mod-eq_of_lt}
use sp1_tee.Prelude.{
  refl, inl, inr, Bool-cases, ℕ, false, ◌^◌, ◌≤◌, ◌<◌, ◌≡◌, List, ◌++◌, append_assoc, arith, length,
  ltb, lt→ltb,
}
use sp1_tee.Result.{map_err, ok, err}
use sp1_tee.Io.{Io, lift, mapping_err, ◌>>◌, >>=-keep}
use sp1_tee.Common.Bytes.{u32_max, to_be_bytes}
use sp1_tee.Common.Communication.{
  bincode, CommunicationError, io, message_too_large, Transport, Codec, send,
}
use sp1_tee.Common.Communication.Laws.{PipeLaws, IsLive}

-- A message on the wire: its length, then itself.
unfoldable pub frame : List ℕ → List ℕ
frame bytes = to_be_bytes (length bytes) ++ bytes

u32_fits : (n : ℕ) → n ≤ u32_max → n < 2 ^ 32
u32_fits n h = omega arith

not-ltb : (m n : ℕ) → n ≤ m → ltb m n ≡ false
not-ltb m n h = ground arith

-- The two writes of `send`: when both go through, both are on the wire.
module _ (t : Transport) (p : PipeLaws t) where
  writes : List ℕ → List ℕ → Io t.Raw CommunicationError (Unit {0})
  writes a b = do mapping_err io (t.write_all a); mapping_err io (t.write_all b)

  writes_lem :
      (a b : List ℕ) (s : t.Raw)
      → (writes a b s).0 ≡ ok tt
      → p.sent (writes a b s).1 ≡ p.sent s ++ (a ++ b)
  unfolding writes
  writes_lem a b s h = ground (
    arith,
    append_assoc (p.sent s) a b,
    p.sent-write_all a s,
    p.sent-write_all b (t.write_all a s).1,
  )

  writes_live : IsLive t → (a b : List ℕ) (s : t.Raw) → (writes a b s).0 ≡ ok tt
  unfolding writes
  writes_live live a b s = ground (arith, live.write_ok a s, live.write_ok b (t.write_all a s).1)

module _ (t : Transport) {Out : Type 0} (out : Codec Out) where
  -- A message of more than `u32::MAX` bytes is refused, and nothing is written.
  pub send_too_large :
      (message : Out) (bytes : List ℕ) (s : t.Raw)
      → out.serialize message ≡ ok bytes
      → u32_max < length bytes
      → send t out message s ≡ (err message_too_large, s)
  unfolding send
  send_too_large message bytes s e h = rw (e, lt→ltb _ _ h)

  -- What a write leaves alone, `send` leaves alone, whatever its outcome.
  pub send_keep :
      {A : Type 0} (view : t.Raw → A)
      → ((bytes : List ℕ) (s : t.Raw) → view (t.write_all bytes s).1 ≡ view s)
      → (message : Out) (s : t.Raw) → view (send t out message s).1 ≡ view s
  unfolding send
  send_keep view keep message s =
      >>=-keep view (lift (map_err bincode (out.serialize message))) _ s refl λ bytes.
        elim (Bool-cases (ltb u32_max (length bytes))) [
          | inl large ↦ rw large
          | inr fits ↦
              rw fits
                (>>=-keep view (mapping_err io (t.write_all _)) _ s (keep _ s) (λ _. keep bytes _))
        ]

  module _ (p : PipeLaws t) where
    -- A message that serializes and fits is written as its frame, by the two writes.
    send-eq-writes :
        (message : Out) (bytes : List ℕ) (s : t.Raw)
        → out.serialize message ≡ ok bytes
        → length bytes ≤ u32_max
        → send t out message s ≡ writes t p (to_be_bytes (length bytes)) bytes s
    unfolding send writes
    send-eq-writes message bytes s e h =
        rw (e, not-ltb _ _ h, mod-eq_of_lt (u32_fits (length bytes) h))

    send_serialized :
        (message : Out) (s : t.Raw)
        → (send t out message s).0 ≡ ok tt
        → (bytes : List ℕ) × (out.serialize message ≡ ok bytes) × (length bytes ≤ u32_max)
    unfolding send
    send_serialized message s h = ground arith

    -- If `send` succeeds, the message was serialized to at most `u32::MAX` bytes, and just its
    -- frame, the length in four bytes and then the bytes, was added to what was written.
    pub send_ok :
        (message : Out) (s : t.Raw)
        → (send t out message s).0 ≡ ok tt
        → (bytes : List ℕ) × (out.serialize message ≡ ok bytes)
          × (length bytes ≤ u32_max)
          × (p.sent (send t out message s).1 ≡ p.sent s ++ frame bytes)
    unfolding frame
    send_ok message s h =
        let (bytes, e, fits) = send_serialized message s h in
        let same = send-eq-writes message bytes s e fits in
        (
          bytes,
          e,
          fits,
          rw same (writes_lem t p (to_be_bytes (length bytes)) bytes s (rw same at h)),
        )

    -- On a live stream such a message is sent.
    pub send_live :
        IsLive t
        → (message : Out) (bytes : List ℕ) (s : t.Raw) → out.serialize message ≡ ok bytes
        → length bytes ≤ u32_max
        → ((send t out message s).0 ≡ ok tt)
          × (p.sent (send t out message s).1 ≡ p.sent s ++ frame bytes)
    unfolding frame
    send_live live message bytes s e h =
        let sent = writes_live t p live (to_be_bytes (length bytes)) bytes s in
        rw (send-eq-writes message bytes s e h)
          (sent, writes_lem t p (to_be_bytes (length bytes)) bytes s sent)

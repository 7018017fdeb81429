-- ===== src/Common/Communication/Session.antt =====
-- common/src/communication.rs: many messages over one stream.
use sp1_tee.Prelude.{
  ℕ, zero, suc, ◌≡◌, refl, ap, ◌∙◌, sym, List, [], ◌∷◌, ◌++◌, append_assoc, append-nil, length, ◌≤◌,
}
use sp1_tee.Result.{ok}
use sp1_tee.Io.{Io, pure, ◌>>=◌, ◌>>◌, >>=-eq-ok}
use sp1_tee.Common.Communication.{CommunicationError, Transport, Codec, send, recv}
use sp1_tee.Common.Bytes.{u32_max}
use sp1_tee.Common.Communication.Laws.{PipeLaws, CodecLaws}
use sp1_tee.Common.Communication.Sending.{frame, send_ok}
use sp1_tee.Common.Communication.Receiving.{recv_ok}

module _ {M : Type 0} (c : Codec M) (t : Transport) where
  unfoldable pub send_all : List M → Io t.Raw CommunicationError (Unit {0})
  send_all [] = pure tt
  send_all (m ∷ ms) = do send t c m; send_all ms

  unfoldable pub recv_many : ℕ → Io t.Raw CommunicationError (List M)
  recv_many zero = pure []
  recv_many (suc n) = do m ← recv t c; ms ← recv_many n; pure (m ∷ ms)

append_cancel {ℓ} : {A : Type ℓ} (xs ys zs : List A) → xs ++ ys ≡ xs ++ zs → ys ≡ zs
append_cancel [] ys zs e = e
append_cancel (x ∷ xs) ys zs e = append_cancel xs ys zs (cc)

-- These bytes, at the front of a stream, are received as these messages.
abbrev Carries : {M : Type 0} → Codec M → (t : Transport) → PipeLaws t → List ℕ → List M → Type 0
Carries c t p wire ms =
    (s : t.Raw) (rest : List ℕ)
    → p.pending s ≡ wire ++ rest
    → ((recv_many c t (length ms) s).0 ≡ ok ms) × (p.pending (recv_many c t (length ms) s).1 ≡ rest)

module _ {M : Type 0} (c : Codec M) (laws : CodecLaws c) (t : Transport) (p : PipeLaws t) where
  Carries-nil : Carries c t p [] []
  unfolding recv_many
  Carries-nil s rest e = (refl, e)

  Carries-cons :
      (m : M) (ms : List M) (bytes wire : List ℕ)
      → c.serialize m ≡ ok bytes
      → length bytes ≤ u32_max
      → Carries c t p wire ms
      → Carries c t p (frame bytes ++ wire) (m ∷ ms)
  unfolding recv_many
  Carries-cons m ms bytes wire e fits rec s rest q =
      let (r, q', _) =
        recv_ok t p c laws m bytes (wire ++ rest) s e fits (q ∙ append_assoc _ wire rest) in
      let (rs, qs) = rec (recv t c s).1 rest q' in rw (r, rs) (refl, qs)

-- The sender and the receiver may stand on different transports.
module _ {M : Type 0} (c : Codec M) (laws : CodecLaws c) (t : Transport) (p : PipeLaws t)
    (u : Transport) (q : PipeLaws u) where
  -- What `send` puts on the wire for a list of messages is received as that list.
  send_all-Carries :
      (ms : List M) (s : t.Raw)
      → (send_all c t ms s).0 ≡ ok tt
      → (wire : List ℕ) × (p.sent (send_all c t ms s).1 ≡ p.sent s ++ wire) × Carries c u q wire ms
  unfolding send_all
  send_all-Carries [] s h = ([], sym (append-nil _), Carries-nil c laws u q)
  send_all-Carries (m ∷ ms) s h =
      let (_, r, step) = >>=-eq-ok (send t c m) (λ _. send_all c t ms) s h in
      let (bytes, e, fits, grown) = send_ok t c p m s r in
      let (wire, more, carried) = send_all-Carries ms (send t c m s).1 (rw step at h) in
      (
        frame bytes ++ wire,
        rw step (more ∙ ap (λ (bs : List ℕ). bs ++ wire) grown ∙ append_assoc _ (frame bytes) wire),
        Carries-cons c laws u q m ms bytes wire e fits carried,
      )

  -- If sending a list of messages one by one has succeeded on one stream, and the bytes that it put
  -- on the wire stand at the front of another, then as many calls of `recv` on the other return
  -- exactly those messages in order and leave what stands behind them.
  pub recv_many-send_all :
      (ms : List M) (s : t.Raw) (s' : u.Raw) (wire rest : List ℕ)
      → (send_all c t ms s).0 ≡ ok tt
      → p.sent (send_all c t ms s).1 ≡ p.sent s ++ wire
      → q.pending s' ≡ wire ++ rest
      → ((recv_many c u (length ms) s').0 ≡ ok ms)
        × (q.pending (recv_many c u (length ms) s').1 ≡ rest)
  recv_many-send_all ms s s' wire rest done sent arrived =
      let (wire', sent', carried) = send_all-Carries ms s done in
      let same = append_cancel (p.sent s) wire wire' (sym sent ∙ sent') in
      carried s' rest (arrived ∙ ap (λ (bs : List ℕ). bs ++ rest) same)

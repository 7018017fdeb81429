-- ===== src/Common/Communication/Laws.antt =====
-- What the framing relies on in the socket and in the encoding.
use sp1_tee.Prelude.{ℕ, ◌≤◌, ◌<◌, ◌≡◌, List, ◌++◌, length, take, drop}
use sp1_tee.Result.{ok, err, ErrorText}
use sp1_tee.Common.Communication.{Transport, Codec}

-- What was serialized is read back.
pub record CodecLaws {A : Type 0} (c : Codec A) : Type 0 where
  pub round_trip : (a : A) (bytes : List ℕ) → c.serialize a ≡ ok bytes → c.deserialize bytes ≡ ok a

-- A raw stream seen as the bytes that it has taken from its owner so far, and those that its peer
-- has for it now. Writing may fail, and then says nothing; a read that wants more bytes than the peer
-- ever sends fails.
pub record PipeLaws (t : Transport) : Type 0 where
  pub sent : t.Raw → List ℕ
  pub pending : t.Raw → List ℕ
  pub sent-write_all :
      (bytes : List ℕ) (s : t.Raw)
      → (t.write_all bytes s).0 ≡ ok tt
      → sent (t.write_all bytes s).1 ≡ sent s ++ bytes
  pub read_enough :
      (n : ℕ) (s : t.Raw)
      → n ≤ length (pending s)
      → ((t.read_exact n s).0 ≡ ok (take n (pending s)))
        × (pending (t.read_exact n s).1 ≡ drop n (pending s))
  pub read_short :
      (n : ℕ) (s : t.Raw)
      → length (pending s) < n
      → (e : ErrorText) × ((t.read_exact n s).0 ≡ err e)
  pub sent-read_exact : (n : ℕ) (s : t.Raw) → sent (t.read_exact n s).1 ≡ sent s

-- A stream on which every write goes through.
pub record IsLive (t : Transport) : Type 0 where
  pub write_ok : (bytes : List ℕ) (s : t.Raw) → (t.write_all bytes s).0 ≡ ok tt

-- A stream whose peer has said all it will say, whatever it is sent.
pub record IsFed (t : Transport) (p : PipeLaws t) : Type 0 where
  pub pending-write_all :
      (bytes : List ℕ) (s : t.Raw) → p.pending (t.write_all bytes s).1 ≡ p.pending s

-- A stream whose peer is a program: until the first byte is read, what there is to read is a
-- function of what was written.
pub record IsServed (t : Transport) (p : PipeLaws t) (peer : List ℕ → List ℕ) : Type 0 where
  pub taken : t.Raw → ℕ
  pub served : (s : t.Raw) → taken s ≡ 0 → p.pending s ≡ peer (p.sent s)
  pub taken-write_all : (bytes : List ℕ) (s : t.Raw) → taken (t.write_all bytes s).1 ≡ taken s

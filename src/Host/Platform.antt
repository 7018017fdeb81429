-- ===== src/Host/Platform.antt =====
-- What the host calls and the repository does not hold: k256's encoded points, alloy's addresses
-- and signatures, and how the program is built.
use sp1_tee.Prelude.{ℕ, Bool, false, ◌≡◌, List, ◌∷◌, length}
use sp1_tee.Enclave.Platform.{Platform}

-- An Ethereum address, as its bytes.
abbrev pub Address : Type 0
Address = List ℕ

pub record HostPlatform (pl : Platform) : Type 0 where
  -- the kinds of an encoded point
  pub is_identity : pl.Point → Bool
  pub is_compact : pl.Point → Bool
  pub is_compressed : pl.Point → Bool
  -- `Address::from_raw_public_key`, of the 64 bytes of the two coordinates
  pub from_raw_public_key : List ℕ → Address
  -- whether an overflow of an addition panics in this build, and does not wrap
  pub overflow_checks : Bool

-- SEC1: a point of no special kind is uncompressed, with the tag 4 and two coordinates of 32
-- bytes; and the points of keys are of that kind.
pub record PointLaws (pl : Platform) (h : HostPlatform pl) : Type 0 where
  pub uncompressed :
      (q : pl.Point)
      → h.is_identity q ≡ false
      → h.is_compact q ≡ false
      → h.is_compressed q ≡ false
      → (raw : List ℕ) × (pl.point_bytes q ≡ 4 ∷ raw) × (length raw ≡ 64)
  pub key_not_identity : (k : pl.SigningKey) → h.is_identity (pl.verifying_point k) ≡ false
  pub key_not_compact : (k : pl.SigningKey) → h.is_compact (pl.verifying_point k) ≡ false
  pub key_not_compressed : (k : pl.SigningKey) → h.is_compressed (pl.verifying_point k) ≡ false

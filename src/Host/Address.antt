-- ===== src/Host/Address.antt =====
-- host/src/lib.rs: Ethereum addresses of public keys.
use sp1_tee.Prelude.{
  ℕ, false, ◌≡◌, ◌||◌, refl, ◌↔◌, List, [], ◌∷◌, Option, none, some, arith, length, ◌==◌, not,
  if◌then◌else◌,
}
use sp1_tee.Enclave.Platform.{Platform}
use sp1_tee.Host.Platform.{Address, HostPlatform, PointLaws}

module _ (pl : Platform) (h : HostPlatform pl) where
  open h use {is_identity, is_compact, is_compressed, from_raw_public_key}

  -- `public_key[0]` and `public_key[1..]` behind the test of the length.
  tagged : List ℕ → Option Address
  tagged [] = none
  tagged (tag ∷ raw) = if not (tag == 4) then none else some (from_raw_public_key raw)

  unfoldable pub ethereum_address_from_sec1_bytes : List ℕ → Option Address
  unfolding tagged
  ethereum_address_from_sec1_bytes public_key =
      if not (length public_key == 65) then none else tagged public_key

  pub ethereum_address_from_encoded_point : pl.Point → Option Address
  ethereum_address_from_encoded_point point =
      if is_identity point || is_compact point || is_compressed point
      then none
      else ethereum_address_from_sec1_bytes (pl.point_bytes point)

  -- Bytes have an Ethereum address exactly if they are the byte 4 and 64 more bytes, and the
  -- address is then that of the 64 bytes.
  pub ethereum_address_from_sec1_bytes_iff :
      (public_key : List ℕ) (a : Address)
      → (ethereum_address_from_sec1_bytes public_key ≡ some a) ↔ (
          (raw : List ℕ) × (public_key ≡ 4 ∷ raw)
          × (length raw ≡ 64)
          × (a ≡ from_raw_public_key raw))
  unfolding ethereum_address_from_sec1_bytes
  ethereum_address_from_sec1_bytes_iff [] a = (λ e. cc, λ e. cc (e.1))
  ethereum_address_from_sec1_bytes_iff (tag ∷ raw) a = (
    λ e. (raw, ground arith, ground arith, ground arith),
    λ e. let (raw', q, l, r) = e in ground arith,
  )

  module _ (laws : PointLaws pl h) where
    -- An encoded point that is neither the identity nor compact nor compressed has the byte 4
    -- before its coordinates, and `ethereum_address_from_encoded_point` gives the address of the
    -- coordinates.
    pub ethereum_address_from_encoded_point-some :
        (q : pl.Point)
        → is_identity q ≡ false
        → is_compact q ≡ false
        → is_compressed q ≡ false
        → (raw : List ℕ) × (pl.point_bytes q ≡ 4 ∷ raw)
          × (ethereum_address_from_encoded_point q ≡ some (from_raw_public_key raw))
    unfolding ethereum_address_from_encoded_point
    ethereum_address_from_encoded_point-some q i c z =
        let (raw, e, l) = laws.uncompressed q i c z in
        (raw, e, rw (i, c, z) ((ethereum_address_from_sec1_bytes_iff _ _).1 (raw, e, l, refl)))

    -- So the key of an enclave always has an address.
    pub key_address :
        (k : pl.SigningKey)
        → (raw : List ℕ) × (pl.point_bytes (pl.verifying_point k) ≡ 4 ∷ raw)
          × (ethereum_address_from_encoded_point (pl.verifying_point k)
              ≡ some (from_raw_public_key raw))
    key_address k =
        ethereum_address_from_encoded_point-some (pl.verifying_point k) (laws.key_not_identity k)
          (laws.key_not_compact k) (laws.key_not_compressed k)

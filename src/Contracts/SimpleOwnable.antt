-- ===== src/Contracts/SimpleOwnable.antt =====
-- contracts/src/SimpleOwnable.sol: the owner of a contract. Events are left out.
use sp1_tee.Prelude.{not, bytes_eq, replicate, if◌then◌else◌}
use sp1_tee.Result.{Result, ok, err, ErrorText, ◌>>◌}
use sp1_tee.Host.Platform.{Address}

-- `address(0)`
abbrev pub zero_address : Address
zero_address = replicate 20 0

-- The constructor, which gives the owner.
unfoldable pub construct_owner : Address → Result ErrorText Address
construct_owner owner =
    if bytes_eq owner zero_address then err "Owner cannot be the zero address" else ok owner

-- The modifier, before the body of a function.
unfoldable pub only_owner : (owner msg_sender : Address) → Result ErrorText (Unit {0})
only_owner owner msg_sender =
    if not (bytes_eq msg_sender owner) then err "Only the owner can call this function" else ok tt

unfoldable pub transfer_ownership :
    (owner msg_sender new_owner : Address) → Result ErrorText Address
unfolding only_owner
transfer_ownership owner msg_sender new_owner = do
  only_owner owner msg_sender
  if bytes_eq new_owner zero_address
      then err "New owner cannot be the zero address"
      else ok new_owner

unfoldable pub renounce_ownership : (owner msg_sender : Address) → Result ErrorText Address
unfolding only_owner
renounce_ownership owner msg_sender = do only_owner owner msg_sender; ok zero_address

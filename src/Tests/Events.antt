-- ===== src/Tests/Events.antt =====
-- An encoding of numbers as text, in place of hex, and of the events that the tests send.
use Prim.Native.Char.{code}
use sp1_tee.Prelude.{
  ℕ, zero, suc, ◌+◌, ◌≡◌, refl, ap, String, true, false, List, [], ◌∷◌, ◌++◌, ◌==◌, ◌∙◌, arith,
  length, take, drop, take-append, drop-append,
}
use sp1_tee.Result.{Result, ok, err, ErrorText}
use sp1_tee.Host.Execute.{EventPayload, success, error, EventCodec}
use sp1_tee.Host.Execute.Events.{EventLaws}
use sp1_tee.Tests.World.{small}

-- A number is as many ones, and then a comma.
abbrev ones : ℕ → String → String
ones zero s = String.◌∷◌ "," s
ones (suc n) s = String.◌∷◌ "1" (ones n s)

abbrev text_of : List ℕ → String
text_of [] = String.[]
text_of (n ∷ ns) = ones n (text_of ns)

abbrev read_ones : ℕ → String → List ℕ
read_ones acc String.[] = []
read_ones acc (String.◌∷◌ c s) = elim (code c == b'1') [
  | true ↦ read_ones (suc acc) s
  | false ↦ acc ∷ read_ones 0 s
]

read_ones-ones : (acc n : ℕ) (s : String) → read_ones acc (ones n s) ≡ (n + acc) ∷ read_ones 0 s
read_ones-ones acc zero s = ground arith
read_ones-ones acc (suc n) s = read_ones-ones (suc acc) n s ∙ ground arith

read_ones-text_of : (ns : List ℕ) → read_ones 0 (text_of ns) ≡ ns
read_ones-text_of [] = refl
read_ones-text_of (n ∷ ns) = read_ones-ones 0 n (text_of ns) ∙ ground (arith, read_ones-text_of ns)

abbrev payload_bytes : EventPayload small → Result ErrorText (List ℕ)
payload_bytes (success r) =
    ok (r.signature ∷ r.recovery_id ∷ length r.vkey ∷ (r.vkey ++ r.public_values))
payload_bytes (error text) = err "not encoded"

abbrev read_payload : List ℕ → Result ErrorText (EventPayload small)
read_payload (signature ∷ recovery_id ∷ n ∷ rest) = ok (
    success (record {
      vkey = take n rest;
      public_values = drop n rest;
      signature = signature;
      recovery_id = recovery_id;
    }))
read_payload _ = err "not a payload"

abbrev pub events : EventCodec small
events = record {
  payloads = record { serialize = payload_bytes; deserialize = read_payload };
  hex_encode = text_of;
}

payload_round_trip :
    (p : EventPayload small) (bytes : List ℕ)
    → payload_bytes p ≡ ok bytes
    → read_payload bytes ≡ ok p
payload_round_trip (success r) bytes e =
    let same : r.signature ∷ r.recovery_id ∷ length r.vkey ∷ (r.vkey ++ r.public_values) ≡ bytes =
      cc in
    rw (← same) (rw (take-append r.vkey r.public_values, drop-append r.vkey r.public_values))
payload_round_trip (error text) bytes e = cc

pub event_laws : EventLaws small events
event_laws = record {
  hex_decode = λ text. ok (read_ones 0 text);
  decoded = λ bytes. ap ok (read_ones-text_of bytes);
  payload_laws = record { round_trip = payload_round_trip };
}

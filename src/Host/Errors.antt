-- ===== src/Host/Errors.antt =====
-- host/src/server.rs and host/src/attestations.rs: the errors of the server and of fetching
-- attestations, their texts, and the HTTP response for each.
use sp1_tee.Prelude.{ℕ, String, [], ◌∷◌, concat}
use sp1_tee.Result.{ErrorText}

pub data GetAttestationError : Type 0 where
  list_attestations_error : ErrorText → GetAttestationError
  s3_get_object_error : ErrorText → GetAttestationError
  parse_address_error : ErrorText → GetAttestationError
  byte_stream_error : ErrorText → GetAttestationError

-- `Display` of `GetAttestationError`.
pub get_attestation_text : GetAttestationError → String
get_attestation_text (list_attestations_error e) = concat ("Failed to list attestations: " ∷ e ∷ [])
get_attestation_text (s3_get_object_error e) = concat ("Failed to get object: " ∷ e ∷ [])
get_attestation_text (parse_address_error e) = concat ("Failed to parse key as address: " ∷ e ∷ [])
get_attestation_text (byte_stream_error e) = concat ("Failed to recieve bytestream: " ∷ e ∷ [])

pub data ServerError : Type 0 where
  failed_to_connect_to_enclave : ServerError
  failed_to_send_request_to_enclave : ServerError
  failed_to_receive_response_from_enclave : ServerError
  unexpected_response_from_enclave : ServerError
  failed_to_convert_public_key_to_address : ServerError
  enclave_error : String → ServerError
  stdin_too_large : ℕ → ServerError
  program_too_large : ℕ → ServerError
  failed_to_deserialize_request : ErrorText → ServerError
  failed_to_parse_enclave_measurement : ErrorText → ServerError
  io_error : ErrorText → ServerError
  failed_to_get_attestations : GetAttestationError → ServerError
  failed_to_authenticate_request : ServerError

-- How Rust prints a number is a parameter.
module _ (display : ℕ → String) where
  -- `Display` of `ServerError`, which goes into an event.
  pub to_string : ServerError → String
  unfolding get_attestation_text
  to_string failed_to_connect_to_enclave = "Failed to connect to enclave"
  to_string failed_to_send_request_to_enclave = "Failed to send request to enclave"
  to_string failed_to_receive_response_from_enclave = "Failed to receive response from enclave"
  to_string unexpected_response_from_enclave = "Unexpected response from enclave"
  to_string failed_to_convert_public_key_to_address = "Failed to convert public key to address"
  to_string (enclave_error e) = concat ("Enclave error: " ∷ e ∷ [])
  to_string (stdin_too_large n) = concat ("Stdin is too large, found " ∷ display n ∷ " bytes" ∷ [])
  to_string (program_too_large n) =
      concat ("Program is too large, found " ∷ display n ∷ " bytes" ∷ [])
  to_string (failed_to_deserialize_request e) = concat ("Failed to deserialize request, " ∷ e ∷ [])
  to_string (failed_to_parse_enclave_measurement e) =
      concat ("Failed to deserialize enclave measurement: " ∷ e ∷ [])
  to_string (io_error e) = concat ("Io Error when fetching enclave measurement: " ∷ e ∷ [])
  to_string (failed_to_get_attestations e) =
      concat ("Failed to get attestations: " ∷ get_attestation_text e ∷ [])
  to_string failed_to_authenticate_request = "Failed to authenticate request"

  -- `into_response`: the status and the body.
  pub into_response : ServerError → ℕ × String
  unfolding get_attestation_text
  into_response failed_to_connect_to_enclave = (500, "Failed to connect to enclave")
  into_response failed_to_send_request_to_enclave = (500, "Failed to send request to enclave")
  into_response failed_to_receive_response_from_enclave =
      (500, "Failed to receive response from enclave")
  into_response unexpected_response_from_enclave = (500, "Unexpected response from enclave")
  into_response failed_to_convert_public_key_to_address =
      (500, "Failed to convert public key to address, this is a bug.")
  into_response (enclave_error e) = (500, e)
  into_response (stdin_too_large size) =
      (413, concat ("Stdin is too large, found " ∷ display size ∷ " bytes" ∷ []))
  into_response (program_too_large size) =
      (413, concat ("Program is too large, found " ∷ display size ∷ " bytes" ∷ []))
  into_response (failed_to_deserialize_request e) =
      (400, concat ("Failed to deserialize request, " ∷ e ∷ []))
  into_response (failed_to_parse_enclave_measurement e) =
      (500, concat ("Failed to parse enclave measurement, " ∷ e ∷ []))
  into_response (io_error e) =
      (500, concat ("Io error when fetching enclave measurement, " ∷ e ∷ []))
  into_response (failed_to_get_attestations e) =
      (500, concat ("Failed to get attestations, " ∷ get_attestation_text e ∷ []))
  into_response failed_to_authenticate_request = (401, "Failed to authenticate request")

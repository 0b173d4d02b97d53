-- ===== src/Errors.antt =====
-- The errors of the modelled services. An operation that returns Go's `error` returns an
-- `Option Error`, `none` for nil.
use done_rest.Prelude.{String}

-- The errors that the modelled code returns, by cause; the texts of the messages are left out.
pub data Error : Type 0 where
  missing_client_id invalid_client_type client_not_found client_id_mismatch : Error
  password_too_short invalid_login already_open read_failed unmarshal_failed : Error
  missing_pub_key invalid_auth_info not_a_service request_not_found : Error
  incomplete_subject incomplete_address subscribe_failed panicked key_not_found no_properties
        core_not_found process_exists_already plugin_not_found td_not_found pub_key_mismatch
        mac_mismatch invalid_token :
      Error
  missing_address missing_name cursor_not_found not_the_owner : Error
  too_many_results unknown_capability unknown_method missing_event_id missing_method
        missing_thing_id missing_keys_dir missing_handler :
      Error
  session_not_found missing_session : Error
  undecodable_token signature_not_base64 signature_not_verified unknown_issuer bad_pub_key : Error
  -- an error that code outside the repository returned: the file system, bcrypt, the server
  external : String → Error

-- ===== src/Proxy/Outbound.antt =====
-- `outbound_handler` of service/src/main.rs.
pub mod Replies
pub mod GetAll
pub mod Verified
use pda_proxy.Base.{
  ◌==◌, Bool, Option, none, some, String, List, [], ◌∷◌, Bytes, Result, ok, err, ok_or, str_eq,
  if◌then◌else◌,
}
use pda_proxy.Service.Job.{error_display}
use pda_proxy.Service.Action.{◌>>=◌, ◌>>◌, pure, throw, attempt, map_fail}
use pda_proxy.Service.Platform.{Platform, World}
use pda_proxy.Service.Runner.Proving.{encryption_key}
use pda_proxy.Proxy.Json.{
  Value, null, boolean, number, string, array, object, Values, nil, cons, get_field, set_field,
  list_values,
}
use pda_proxy.Proxy.Wire.{Wire, Response, remove_header, bad_auth_response}
use pda_proxy.Proxy.Decrypt.{Handler, anyhow, verify_decrypt_blob}

module _ {P : Platform} (W : Wire P) where
  unfoldable pub decrypt_value : World P → Bytes → Value → Handler P Value
  decrypt_value w key value = do
    blob ← anyhow (W.blob_from_value value)
    plaintext_only_blob ← verify_decrypt_blob W w blob key
    anyhow (W.blob_to_value plaintext_only_blob)

  unfoldable pub decrypt_values : World P → Bytes → Values → Handler P (List Value)
  decrypt_values w key nil = pure []
  decrypt_values w key (cons value values) = do
    plaintext ← decrypt_value w key value
    rest ← decrypt_values w key values
    pure (plaintext ∷ rest)

  unfoldable pub decrypt_array : World P → Bytes → Value → Handler P Value
  decrypt_array w key (array values) = do
    plaintext_blobs ← decrypt_values w key values
    pure (array (list_values plaintext_blobs))
  decrypt_array w key null = throw "Expected 'result' to be an array"
  decrypt_array w key (boolean b) = throw "Expected 'result' to be an array"
  decrypt_array w key (number n) = throw "Expected 'result' to be an array"
  decrypt_array w key (string s) = throw "Expected 'result' to be an array"
  decrypt_array w key (object ms) = throw "Expected 'result' to be an array"

  -- The `match request_method` on the field `result`.
  unfoldable pub new_result : World P → Bytes → String → Value → Handler P Value
  new_result w key request_method result_raw =
      if str_eq request_method "blob.Get"
      then decrypt_value w key result_raw
      else if str_eq request_method "blob.GetAll"
      then decrypt_array w key result_raw
      else pure result_raw

  unfoldable pub try_mutate_response : World P → String → Value → Handler P Value
  unfolding decrypt_value decrypt_values decrypt_array new_result
  try_mutate_response w request_method body_json = do
    result_raw ← anyhow (ok_or (get_field "result" body_json) "Missing 'result' field")
    key ← map_fail error_display (encryption_key P w)
    result ← new_result w key request_method result_raw
    pure (set_field "result" result body_json)

  -- What is returned: the response as it came where the body could not be decrypted.
  unfoldable pub mutated_or_original : Response → Result String Value → Handler P Response
  mutated_or_original resp (err e) = pure resp
  mutated_or_original resp (ok body_json) = do
    json ← anyhow (W.to_vec body_json)
    pure (record resp { headers = remove_header "content-length" resp.headers; body = ok json })

  unfoldable pub outbound_handler : World P → Response → String → Handler P Response
  unfolding mutated_or_original
  outbound_handler w resp request_method = do
    body_bytes ← anyhow resp.body
    if resp.status == 401 then pure (bad_auth_response W) else do
      body_json ← anyhow (W.from_slice body_bytes)
      tried ← attempt (try_mutate_response w request_method body_json)
      mutated_or_original resp tried

-- ===== src/Proxy/Inbound.antt =====
-- `inbound_handler` of service/src/main.rs.
pub mod Privacy
pub mod Ready
pub mod Calls
use pda_proxy.Base.{
  Bool, Option, none, some, String, List, [], ◌∷◌, Bytes, Result, ok, err, str_eq, if◌then◌else◌,
}
use pda_proxy.Service.Job.{Anchor, Input, Job, error_display}
use pda_proxy.Service.Action.{◌>>=◌, ◌>>◌, pure, throw, map_fail}
use pda_proxy.Service.Platform.{Platform, World}
use pda_proxy.Service.Runner.Requests.{get_verifiable_encryption}
use pda_proxy.Proxy.Json.{
  Value, null, boolean, number, string, array, object, Values, nil, cons, get_field, set_field,
  method_of,
}
use pda_proxy.Proxy.Wire.{Wire, Request, remove_header}
use pda_proxy.Proxy.Decrypt.{Handler, anyhow}

abbrev pub text_or_empty : Option String → String
text_or_empty none = ""
text_or_empty (some s) = s

module _ {P : Platform} (W : Wire P) where
  -- The job of a blob: its data, under their digest.
  unfoldable pub job_of : W.Blob → Job
  job_of blob = record {
    anchor = record { data_bytes = P.primitives.sha256 (W.data_of blob) };
    input = record { data_bytes = W.data_of blob };
  }

  -- The loop over the blobs. `none`: a blob has no proof yet, and the loop is left.
  unfoldable pub encrypt_blobs : World P → List W.Blob → Handler P (Option (List W.Blob))
  encrypt_blobs w [] = pure (some [])
  encrypt_blobs w (blob ∷ blobs) = do
    found ← map_fail error_display (get_verifiable_encryption P w (job_of blob))
    elim found [
      | none ↦ pure none
      | some proof_with_values ↦ do
        encrypted_data ← anyhow (W.proof_to_bytes proof_with_values)
        encrypted_blob ← anyhow (W.new_blob (W.namespace blob) encrypted_data)
        rest ← encrypt_blobs w blobs
        pure (elim rest [ none ↦ none | some bs ↦ some (encrypted_blob ∷ bs) ])
    ]

  unfoldable pub replace_blobs : Value → Values → Option (List W.Blob) → Handler P (Option Value)
  replace_blobs body_json rest none = pure none
  replace_blobs body_json rest (some encrypted_blobs) = do
    value ← anyhow (W.blobs_to_value encrypted_blobs)
    pure (some (set_field "params" (array (cons value rest)) body_json))

  -- `params` of a `blob.Submit`, where it is there.
  unfoldable pub submit_params : World P → Value → Value → Handler P (Option Value)
  unfolding replace_blobs
  submit_params w body_json (array nil) = pure (some body_json)
  submit_params w body_json (array (cons blobs_value rest)) = do
    blobs ← anyhow (W.blobs_from_value blobs_value)
    encrypted ← encrypt_blobs w blobs
    replace_blobs body_json rest encrypted
  submit_params w body_json null = throw "Expected 'params' to be a JSON array"
  submit_params w body_json (boolean b) = throw "Expected 'params' to be a JSON array"
  submit_params w body_json (number n) = throw "Expected 'params' to be a JSON array"
  submit_params w body_json (string s) = throw "Expected 'params' to be a JSON array"
  submit_params w body_json (object ms) = throw "Expected 'params' to be a JSON array"

  unfoldable pub submit : World P → Value → Option Value → Handler P (Option Value)
  submit w body_json none = pure (some body_json)
  submit w body_json (some params_raw) = submit_params w body_json params_raw

  -- The body to forward; `none` where a blob is still being encrypted.
  unfoldable pub intercept : World P → Value → Option String → Handler P (Option Value)
  unfolding submit
  intercept w body_json none = pure (some body_json)
  intercept w body_json (some method) =
      if str_eq method "blob.Submit"
      then submit w body_json (get_field "params" body_json)
      else pure (some body_json)

  unfoldable pub forward : Request → Option Value → Handler P (Option Request)
  forward req none = pure none
  forward req (some body_json) = do
    json_bytes ← anyhow (W.to_vec body_json)
    pure (
        some (record req {
          headers = remove_header "content-length" req.headers;
          body = ok json_bytes;
        }))

  -- The request's method, left for the response, and the request to forward.
  unfoldable pub inbound_handler : World P → Request → Handler P (String × Option Request)
  unfolding forward
  inbound_handler w req = do
    body_bytes ← anyhow req.body
    body_json ← anyhow (W.from_slice body_bytes)
    let method = method_of body_json
    new_json ← intercept w body_json method
    forwarded ← forward req new_json
    pure (text_or_empty method, forwarded)

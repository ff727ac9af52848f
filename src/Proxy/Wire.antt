-- ===== src/Proxy/Wire.antt =====
-- What the proxy takes from the crates celestia_types, serde_json, bincode and hyper, and requests
-- and responses as the handlers see them.
use pda_proxy.Base.{
  ℕ, Bool, Option, none, some, String, ◌<>◌, List, [], ◌∷◌, Bytes, Result, ok, str_eq,
  if◌then◌else◌,
}
use pda_proxy.Service.Platform.{Platform}
use pda_proxy.Proxy.Json.{Value, string, number, object, member, end}

pub record Wire (P : Platform) : Type 1 where
  -- celestia_types: a blob, its public fields `namespace` and `data`, and `Blob::new`
  pub Blob : Type 0
  pub Namespace : Type 0
  pub namespace : Blob → Namespace
  pub data_of : Blob → Bytes
  pub with_data : Blob → Bytes → Blob
  pub new_blob : Namespace → Bytes → Result String Blob
  -- serde_json
  pub blob_from_value : Value → Result String Blob
  pub blobs_from_value : Value → Result String (List Blob)
  pub blob_to_value : Blob → Result String Value
  pub blobs_to_value : List Blob → Result String Value
  pub from_slice : Bytes → Result String Value
  pub to_vec : Value → Result String Bytes
  -- bincode, on proofs
  pub proof_to_bytes : P.Proof → Result String Bytes
  pub proof_from_bytes : Bytes → Result String P.Proof
  -- sp1_sdk
  pub verify : P.LocalClient → P.Proof → P.Vk → Result String (Unit {0})
  -- the UTF-8 bytes of a text, and whether a text parses as an URI
  pub utf8 : String → Bytes
  pub parses_as_uri : String → Bool

abbrev pub Headers : Type 0
Headers = List (String × String)

-- The body is what collecting it gives.
pub record Request : Type 0 where
  pub uri : String
  pub path_and_query : Option String
  pub headers : Headers
  pub body : Result String Bytes

pub record Response : Type 0 where
  pub status : ℕ
  pub headers : Headers
  pub body : Result String Bytes

-- `headers.get(name)`, where the value is text; names are in lower case, as hyper keeps them
abbrev pub get_header : String → Headers → Option String
get_header name [] = none
get_header name ((n, v) ∷ hs) = if str_eq n name then some v else get_header name hs

-- `headers.remove(name)`
abbrev pub remove_header : String → Headers → Headers
remove_header name [] = []
remove_header name ((n, v) ∷ hs) =
    let rest = remove_header name hs in if str_eq n name then rest else (n, v) ∷ rest

module _ {P : Platform} (W : Wire P) where
  unfoldable pub new_response_from : String → ℕ → Response
  new_response_from raw_json status = record {
    status = status;
    headers = [];
    body = ok (W.utf8 raw_json);
  }

  unfoldable pub pending_response : Response
  unfolding new_response_from
  pending_response =
      new_response_from
        "{ \"id\": 1, \"jsonrpc\": \"2.0\", \"status\": \"[pda-proxy] Verifiable encryption processing... Call back for result\" }"
        202

  unfoldable pub bad_auth_response : Response
  unfolding new_response_from
  bad_auth_response =
      new_response_from
        "{ \"id\": 1, \"jsonrpc\": \"2.0\", \"error\": { \"message\": \"Missing or malformed Authorization header. Expected format: Bearer <token>\" } }"
        401

  -- The JSON object is serialized by serde_json, which does not fail on it.
  unfoldable pub internal_error_response : String → Response
  internal_error_response error = record {
    status = 500;
    headers = [];
    body = W.to_vec (
        object (
          member "id" (number "1") (
            member "jsonrpc" (string "2.0") (
              member "error"
                (object (member "message" (string ("[pda-proxy] internal error: " <> error)) end))
                end))));
  }

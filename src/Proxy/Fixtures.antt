-- ===== src/Proxy/Fixtures.antt =====
-- A codec that knows a few bodies, and the requests and states that the tests of the proxy run on.
use pda_proxy.Base.{
  ℕ, refl, true, none, some, String, [], ◌∷◌, ◌++◌, Bytes, length, Result, ok, err, replicate,
  length-replicate, ◌==◌, if◌then◌else◌,
}
use pda_proxy.Zkvm.Primitives.{IsDocumented}
use pda_proxy.Service.Platform.{World}
use pda_proxy.Service.Memory.{memory, toy_primitives, world, empty}
use pda_proxy.Service.Runner.State.{Runner}
use pda_proxy.Proxy.Json.{Value, string, array, object, nil, cons, member, end}
use pda_proxy.Proxy.Wire.{Wire, Request, Response}

pub toy-IsDocumented : IsDocumented toy_primitives
toy-IsDocumented = record {
  keystream = λ key nonce i. 85;
  applies = λ key nonce buffer. refl;
  length-sha256 = λ m. length-replicate 32 (length m);
}

abbrev pub key : Bytes
key = replicate 32 1

abbrev pub nonce : Bytes
nonce = replicate 12 9

-- What a run of the guest on the plaintext `7` commits.
abbrev pub proof : Bytes
proof = replicate 32 32 ++ (nonce ++ (replicate 32 1 ++ (82 ∷ [])))

abbrev pub submission : Value
submission = object (
    member "method" (string "blob.Submit")
      (member "params" (array (cons (string "plain") nil)) end))

abbrev pub batch : Value
batch = array (cons submission nil)

abbrev pub retrieval : Value
retrieval = object (member "method" (string "blob.Get") end)

abbrev pub reply : Value
reply = object (member "result" (string "encrypted") end)

abbrev pub reply_all : Value
reply_all = object (member "result" (array (cons (string "encrypted") nil)) end)

-- The bodies: `0` is a submission, `1` a batch with it, `3` a reply with an array of blobs, `4` a
-- call of `blob.Get`, and all else a reply with a blob.
abbrev pub body_of : Bytes → Result String Value
body_of [] = err "EOF while parsing a value"
body_of (b ∷ bs) =
    if b == 0
    then ok submission
    else if b == 1
    then ok batch
    else if b == 3
    then ok reply_all
    else if b == 4
    then ok retrieval
    else ok reply

-- A blob is its namespace and its data.
abbrev pub wire : Wire memory
wire = record {
  Blob = ℕ × Bytes;
  Namespace = ℕ;
  namespace = λ b. b.0;
  data_of = λ b. b.1;
  with_data = λ b d. (b.0, d);
  new_blob = λ n d. ok (n, d);
  blob_from_value = λ v. ok (3, proof);
  blobs_from_value = λ v. ok ((3, 7 ∷ []) ∷ []);
  blob_to_value = λ b. ok (string "plain");
  blobs_to_value = λ bs. ok (string "encrypted");
  from_slice = body_of;
  to_vec = λ v. ok (123 ∷ 125 ∷ []);
  proof_to_bytes = λ p. ok p;
  proof_from_bytes = λ b. ok b;
  verify = λ client p vk. ok tt;
  utf8 = λ s. [];
  parses_as_uri = λ s. true;
}

-- The service with the proof for the blob `7` in its finished tree.
abbrev pub proved : Runner memory
proved = record empty {
  finished_db = (replicate 32 1, 3 ∷ proof) ∷ [];
  zk_client_handle_local = some 1;
  chacha_setup = some (record { pk = 1; vk = 8 });
}

abbrev pub quiet : World memory
quiet = world (ok [])

abbrev pub request : Bytes → Request
request body_bytes = record {
  uri = "/";
  path_and_query = none;
  headers = ("authorization", "Bearer token") ∷ ("content-length", "1") ∷ [];
  body = ok body_bytes;
}

abbrev pub response : Response
response = record { status = 200; headers = ("content-length", "1") ∷ []; body = ok (2 ∷ []) }

abbrev pub upstream : Request → Result String Response
upstream req = ok response

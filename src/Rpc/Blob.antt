-- ===== src/Rpc/Blob.antt =====
-- The trait `Blob` and its `BlobServerImpl` of service/src/rpc/blob.rs, and what the proxy's handlers
-- do by the names of its calls.
use pda_proxy.Base.{ℕ, ◌≡◌, refl, Bool, Option, some, String, List, Bytes}
use pda_proxy.Service.Action.{Outcome, panic, pure}
use pda_proxy.Service.Platform.{Platform, World}
use pda_proxy.Rpc.TxConfig.{TxConfig}
use pda_proxy.Proxy.Json.{Value, get_field}
use pda_proxy.Proxy.Wire.{Wire}
use pda_proxy.Proxy.Decrypt.{Handler}
use pda_proxy.Proxy.Inbound.{submit, intercept}
use pda_proxy.Proxy.Outbound.{decrypt_value, decrypt_array, new_result}

-- The types of celestia_types and jsonrpsee that the interface is written with, and `f64`.
pub record Types : Type 1 where
  pub AccAddress : Type 0
  pub Price : Type 0
  pub Blob : Type 0
  pub Namespace : Type 0
  pub NamespaceProof : Type 0
  pub Commitment : Type 0
  pub ErrorObject : Type 0

module _ (T : Types) where
  -- `SubcriptionResult` is `Result<(), StringError>`, and `item` is what a subscription sends.
  pub record BlobsAtHeight : Type 0 where
    pub blobs : Option (List T.Blob)
    pub height : ℕ  -- u64

  pub data BlobCall : Type 0 where
    get : ℕ → T.Namespace → T.Commitment → BlobCall
    get_all : ℕ → List T.Namespace → BlobCall
    get_proof : ℕ → T.Namespace → T.Commitment → BlobCall
    included : ℕ → T.Namespace → T.NamespaceProof → T.Commitment → BlobCall
    submit_blobs : List T.Blob → TxConfig T.AccAddress T.Price → BlobCall
    subscribe : T.Namespace → BlobCall

  -- The names of the `method` and `subscription` attributes.
  unfoldable pub blob_method : BlobCall → String
  blob_method (get height namespace commitment) = "blob.Get"
  blob_method (get_all height namespaces) = "blob.GetAll"
  blob_method (get_proof height namespace commitment) = "blob.GetProof"
  blob_method (included height namespace proof commitment) = "blob.Included"
  blob_method (submit_blobs blobs opts) = "blob.Submit"
  blob_method (subscribe namespace) = "blob.Subscribe"

  abbrev pub BlobReply : BlobCall → Type 0
  BlobReply (get height namespace commitment) = T.Blob
  BlobReply (get_all height namespaces) = Option (List T.Blob)
  BlobReply (get_proof height namespace commitment) = List T.NamespaceProof
  BlobReply (included height namespace proof commitment) = Bool
  BlobReply (submit_blobs blobs opts) = ℕ
  BlobReply (subscribe namespace) = Unit

  -- `todo!()` and `unimplemented!()` panic with these texts.
  unfoldable pub blob_server : (c : BlobCall) → Outcome T.ErrorObject (BlobReply c)
  blob_server (submit_blobs blobs opts) = panic "not yet implemented"
  blob_server (get height namespace commitment) = panic "not yet implemented"
  blob_server (get_all height namespaces) = panic "not implemented"
  blob_server (get_proof height namespace commitment) = panic "not implemented"
  blob_server (included height namespace proof commitment) = panic "not implemented"
  blob_server (subscribe namespace) = panic "not implemented"

  module _ {P : Platform} (W : Wire P) where
    -- What is done to the request, and to the result of the reply, of each call.
    abbrev pub submits : World P → Value → BlobCall → Handler P (Option Value)
    submits w v (submit_blobs blobs opts) = submit W w v (get_field "params" v)
    submits w v (get height namespace commitment) = pure (some v)
    submits w v (get_all height namespaces) = pure (some v)
    submits w v (get_proof height namespace commitment) = pure (some v)
    submits w v (included height namespace proof commitment) = pure (some v)
    submits w v (subscribe namespace) = pure (some v)

    abbrev pub decrypts : World P → Bytes → Value → BlobCall → Handler P Value
    decrypts w key result (get height namespace commitment) = decrypt_value W w key result
    decrypts w key result (get_all height namespaces) = decrypt_array W w key result
    decrypts w key result (get_proof height namespace commitment) = pure result
    decrypts w key result (included height namespace proof commitment) = pure result
    decrypts w key result (submit_blobs blobs opts) = pure result
    decrypts w key result (subscribe namespace) = pure result

    -- Among the calls of the node's interface for blobs, the proxy encrypts the parameters of the
    -- submission alone, and decrypts the results of the two calls that return blobs alone.
    pub proxied :
        (w : World P) (v result : Value) (key : Bytes) (c : BlobCall)
        → (intercept W w v (some (blob_method c)) ≡ submits w v c)
          × (new_result W w key (blob_method c) result ≡ decrypts w key result c)
    unfolding blob_method intercept new_result
    proxied w v result key (get height namespace commitment) = (refl, refl)
    proxied w v result key (get_all height namespaces) = (refl, refl)
    proxied w v result key (get_proof height namespace commitment) = (refl, refl)
    proxied w v result key (included height namespace proof commitment) = (refl, refl)
    proxied w v result key (submit_blobs blobs opts) = (refl, refl)
    proxied w v result key (subscribe namespace) = (refl, refl)

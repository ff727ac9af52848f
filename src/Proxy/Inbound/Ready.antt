-- ===== src/Proxy/Inbound/Ready.antt =====
-- A submission whose proofs are all there, in `inbound_handler` of service/src/main.rs.
use pda_proxy.Base.{◌≡◌, refl, some, List, [], ◌∷◌, Bytes, ok}
use pda_proxy.Service.Job.{Job}
use pda_proxy.Service.Action.{done, ◌>>=◌}
use pda_proxy.Service.Platform.{Platform, World, IsDocumented}
use pda_proxy.Service.Runner.State.{Runner}
use pda_proxy.Service.Runner.Requests.{answer, answer_finished, get_verifiable_encryption}
use pda_proxy.Service.Runner.Answers.{Finished}
use pda_proxy.Proxy.Json.{Value, array, Values, cons, get_field, set_field, method_of}
use pda_proxy.Proxy.Wire.{Wire, Request, remove_header}
use pda_proxy.Proxy.Inbound.{
  job_of, encrypt_blobs, replace_blobs, submit_params, submit, intercept, forward, inbound_handler,
}
use pda_proxy.Proxy.Inbound.Privacy.{AllEncrypted}

module _ {P : Platform} (D : IsDocumented P) (W : Wire P) where
  -- The finished tree can be read.
  abbrev pub IsReadable : Runner P → Type 0
  IsReadable r = (k : Bytes) → P.get r.finished_db k ≡ ok (D.contents r.finished_db k)

  get_verifiable_encryption-Finished :
      (w : World P) (job : Job) (key : Bytes) (proof : P.Proof) (r : Runner P)
      → IsReadable r
      → P.serialize_anchor job.anchor ≡ ok key
      → Finished P D key r proof
      → get_verifiable_encryption P w job r ≡ (done (some proof), r)
  unfolding get_verifiable_encryption answer answer_finished ◌>>=◌
  get_verifiable_encryption-Finished w job key proof r readable anchored (b, there, decoded) =
      rw (anchored, readable key, there, decoded)

  encrypt_blobs-ready :
      (w : World P) (blobs bs : List W.Blob) (r : Runner P)
      → IsReadable r
      → AllEncrypted D W r blobs bs
      → encrypt_blobs W w blobs r ≡ (done (some bs), r)
  unfolding encrypt_blobs job_of ◌>>=◌
  encrypt_blobs-ready w [] [] r readable h = refl
  encrypt_blobs-ready w [] (b ∷ bs) r readable h = absurd h
  encrypt_blobs-ready w (blob ∷ blobs) [] r readable h = absurd h
  encrypt_blobs-ready w (blob ∷ blobs) (b ∷ bs) r readable
        ((key, proof, proof_bytes, anchored, finished, written, renewed), rest) =
      rw (
        get_verifiable_encryption-Finished w (job_of W blob) key proof r readable anchored finished,
        written,
        renewed,
        encrypt_blobs-ready w blobs bs r readable rest,
      )

  -- A submission for each of whose blobs the finished tree holds a proof is forwarded: with the
  -- blobs that carry these proofs in place of the submitted ones, in their order, without the length
  -- header, and the service stays as it is.
  pub inbound_handler-ready :
      (w : World P) (req : Request) (r : Runner P) (body json : Bytes) (v blobs_value value : Value)
      (rest : Values) (blobs bs : List W.Blob)
      → IsReadable r
      → req.body ≡ ok body
      → W.from_slice body ≡ ok v
      → method_of v ≡ some "blob.Submit"
      → get_field "params" v ≡ some (array (cons blobs_value rest))
      → W.blobs_from_value blobs_value ≡ ok blobs
      → AllEncrypted D W r blobs bs
      → W.blobs_to_value bs ≡ ok value
      → W.to_vec (set_field "params" (array (cons value rest)) v) ≡ ok json
      → inbound_handler W w req r ≡ (
        done (
          "blob.Submit",
          some
              (record req { headers = remove_header "content-length" req.headers; body = ok json }),
        ),
        r,
      )
  unfolding inbound_handler intercept submit submit_params replace_blobs forward ◌>>=◌
  inbound_handler-ready w req r body json v blobs_value value rest blobs bs readable collected
        parsed is_submit params are_blobs all renewed written =
      rw (
        collected,
        parsed,
        is_submit,
        params,
        are_blobs,
        encrypt_blobs-ready w blobs bs r readable all,
        renewed,
        written,
      )

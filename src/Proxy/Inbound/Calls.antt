-- ===== src/Proxy/Inbound/Calls.antt =====
-- The calls that `inbound_handler` of service/src/main.rs does not intercept.
use text.Mathlib.TextEquality.{eq_iff}
use pda_proxy.Base.{
  ◌≡◌, ◌≢◌, refl, ap, inl, inr, Option, none, some, String, Bytes, ok, Bool-cases, str_eq,
}
use pda_proxy.Service.Action.{done, ◌>>=◌}
use pda_proxy.Service.Platform.{Platform, World}
use pda_proxy.Service.Runner.State.{Runner}
use pda_proxy.Proxy.Json.{Value, method_of}
use pda_proxy.Proxy.Wire.{Wire, Request, remove_header}
use pda_proxy.Proxy.Inbound.{text_or_empty, intercept, forward, inbound_handler}

module _ {P : Platform} (W : Wire P) where
  intercept-other :
      (w : World P) (v : Value) (method : Option String) (r : Runner P)
      → method ≢ some "blob.Submit"
      → intercept W w v method r ≡ (done (some v), r)
  unfolding intercept ◌>>=◌
  intercept-other w v none r other = refl
  intercept-other w v (some m) r other = elim (Bool-cases (str_eq m "blob.Submit")) [
    | inl same ↦ absurd (other (ap some ((eq_iff m "blob.Submit").0 same)))
    | inr differ ↦ rw differ
  ]

  -- A body that is not a `blob.Submit` object, a batch of calls among them, is forwarded as its own
  -- JSON text whatever it contains, and the service stays as it is; its method is kept for the
  -- response, and the length header is dropped.
  pub inbound_handler-other :
      (w : World P) (req : Request) (r : Runner P) (body json : Bytes) (v : Value)
      → req.body ≡ ok body
      → W.from_slice body ≡ ok v
      → method_of v ≢ some "blob.Submit"
      → W.to_vec v ≡ ok json
      → inbound_handler W w req r ≡ (
        done (
          text_or_empty (method_of v),
          some
              (record req { headers = remove_header "content-length" req.headers; body = ok json }),
        ),
        r,
      )
  unfolding inbound_handler forward ◌>>=◌
  inbound_handler-other w req r body json v collected parsed other written =
      rw (collected, parsed, intercept-other w v (method_of v) r other, written)

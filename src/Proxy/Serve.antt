-- ===== src/Proxy/Serve.antt =====
-- The service function of `main` in service/src/main.rs, for one request. The answer comes with the
-- request that was forwarded to the upstream node, if any was; where the request was forwarded and
-- its task panicked after that, the message of the panic stands in the response's place.
pub mod Upstream
use pda_proxy.Base.{
  Bool, true, false, Option, none, some, String, ◌<>◌, Bytes, Result, ok, err, starts_with,
  if◌then◌else◌,
}
use pda_proxy.Service.Action.{Outcome, done, fail, panic, ◌>>=◌, ◌>>◌, pure, attempt, ended}
use pda_proxy.Service.Platform.{Platform, World}
use pda_proxy.Proxy.Wire.{
  Wire, Request, Response, get_header, pending_response, bad_auth_response, internal_error_response,
}
use pda_proxy.Proxy.Decrypt.{Handler}
use pda_proxy.Proxy.Inbound.{inbound_handler}
use pda_proxy.Proxy.Outbound.{outbound_handler}

-- `auth_header.is_none_or(|auth| !auth.starts_with("Bearer "))` refuses the request.
abbrev pub is_authorized : Option String → Bool
is_authorized none = false
is_authorized (some auth) = starts_with auth "Bearer "

abbrev pub or_slash : Option String → String
or_slash none = "/"
or_slash (some s) = s

abbrev pub scheme : Option String → String
scheme none = "https"
scheme (some s) = "http"

abbrev pub Answer : Type 0
Answer = Result String Response × Option Request

module _ {P : Platform} (W : Wire P) where
  unfoldable pub or_internal_error : Outcome String Response → Result String Response
  or_internal_error (done response) = ok response
  or_internal_error (fail e) = ok (internal_error_response W ("Outbound Handler: " <> e))
  or_internal_error (panic message) = err message

  -- The upstream node's reply, or the client's error.
  unfoldable pub answer_upstream :
      World P → Request → String → Result String Response → Handler P Answer
  answer_upstream w wrapped_req request_method (err e) =
      pure (ok (internal_error_response W ("DA Client: " <> e)), some wrapped_req)
  answer_upstream w wrapped_req request_method (ok resp) = do
    returned ← ended (outbound_handler W w resp request_method)
    pure (or_internal_error returned, some wrapped_req)

  unfoldable pub answer_inbound :
      World P
      → (Request → Result String Response)
      → Result String (String × Option Request)
      → Handler P Answer
  answer_inbound w upstream (err e) = pure (ok (internal_error_response W e), none)
  answer_inbound w upstream (ok (request_method, none)) = pure (ok (pending_response W), none)
  answer_inbound w upstream (ok (request_method, some wrapped_req)) =
      answer_upstream w wrapped_req request_method (upstream wrapped_req)

  unfoldable pub handle_authorized :
      World P → (Request → Result String Response) → Request → Handler P Answer
  handle_authorized w upstream plaintext_req = do
    result ← attempt (inbound_handler W w plaintext_req)
    answer_inbound w upstream result

  -- The request's URI is set to the upstream node's before anything is looked at.
  unfoldable pub serve :
      World P → String → (Request → Result String Response) → Request → Handler P Answer
  unfolding or_internal_error answer_upstream answer_inbound handle_authorized
  serve w da_node_socket upstream plaintext_req =
      let uri_string =
        scheme (w.var "UNSAFE_HTTP_UPSTREAM")
        <> "://"
        <> da_node_socket
        <> or_slash plaintext_req.path_and_query in
      let redirected = record plaintext_req { uri = uri_string } in
      if W.parses_as_uri uri_string
      then if is_authorized (get_header "authorization" redirected.headers)
        then handle_authorized w upstream redirected
        else pure (ok (bad_auth_response W), none)
      else λ r. (panic "called `Result::unwrap()` on an `Err` value", r)

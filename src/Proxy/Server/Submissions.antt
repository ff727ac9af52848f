-- ===== src/Proxy/Server/Submissions.antt =====
-- Every submission that the service has forwarded, at any later time.
use pda_proxy.Base.{Result, ◌≡◌, inl, inr, some, String, [], Bytes, ok, err}
use pda_proxy.Service.Action.{done}
use pda_proxy.Service.Platform.{Platform, IsDocumented}
use pda_proxy.Service.Runner.State.{Runner}
use pda_proxy.Service.Runner.Invariant.{IsConsistent}
use pda_proxy.Service.Runner.Invariant.Instances.{consistency}
use pda_proxy.Proxy.Json.{Value, array, Values, cons, get_field, method_of}
use pda_proxy.Proxy.Wire.{Wire, Request, Response}
use pda_proxy.Proxy.Trees.{serve-Intact}
use pda_proxy.Proxy.Serve.{serve}
use pda_proxy.Proxy.Serve.Upstream.{serve-AllEncrypted}
use pda_proxy.Proxy.Server.{
  end_process, Call, Process, accept, serve_call, started_again, ServerStep, accepts, serves, works,
  shuts_down, exits, restarts, ServerRun, started, and_then,
}
use pda_proxy.Proxy.Server.History.{
  IsLogged, ServerStep-Intact, ServerRun-Intact, IsPrivate, IsPrivate-Intact, after_serve-IsLogged,
  runner-after_serve,
}

module _ {P : Platform} (D : IsDocumented P) (W : Wire P) (da_node_socket : String)
    (req forwarded : Request) (body : Bytes) (v blobs_value : Value) (rest : Values)
    (collected : req.body ≡ ok body) (parsed : W.from_slice body ≡ ok v)
    (is_submit : method_of v ≡ some "blob.Submit")
    (params : get_field "params" v ≡ some (array (cons blobs_value rest))) where
  abbrev Private : Runner P → Type 0
  Private r = IsPrivate D W v blobs_value rest req forwarded r

  -- The request was sent before the step, or by it.
  served :
      (call : Call P) (r : Runner P) (reply : Result String Response)
      → req ≡ call.request
      → IsConsistent P D r.queue_db r.finished_db
      → (serve W call.world da_node_socket call.upstream call.request r).0
        ≡ done (reply, some forwarded)
      → Private (serve W call.world da_node_socket call.upstream call.request r).1
  served call r reply same h ended =
      let t : Runner P = (serve W call.world da_node_socket call.upstream call.request r).1 in
      IsPrivate-Intact D W v blobs_value rest req forwarded r t
        (λ T. (serve-Intact D T W call.world da_node_socket call.upstream call.request).at r) h
        (serve-AllEncrypted W D call.world da_node_socket call.upstream req forwarded reply r t body
          v blobs_value rest collected parsed is_submit params (rw same (λ i. (ended i, t))))

  kept :
      (s t : Process P)
      → ServerStep W da_node_socket s t
      → IsConsistent P D s.runner.queue_db s.runner.finished_db
      → Private s.runner
      → Private t.runner
  kept s t step h private =
      IsPrivate-Intact D W v blobs_value rest req forwarded s.runner t.runner
        (λ T. ServerStep-Intact D W T step) h private

  stepped :
      (s t : Process P)
      → ServerStep W da_node_socket s t
      → IsConsistent P D s.runner.queue_db s.runner.finished_db
      → (IsLogged req forwarded s.sent → Private s.runner)
      → IsLogged req forwarded t.sent
      → Private t.runner
  unfolding accept end_process serve_call started_again
  stepped s t (accepts (ok (ok calls)) up) h before logged =
      kept s t (accepts (ok (ok calls)) up) h (before logged)
  stepped s t (accepts (ok (err e)) up) h before logged =
      kept s t (accepts (ok (err e)) up) h (before logged)
  stepped s t (accepts (err e) up) h before logged = kept s t (accepts (err e) up) h (before logged)
  stepped s t (works w job up) h before logged = kept s t (works w job up) h (before logged)
  stepped s t (shuts_down up) h before logged = kept s t (shuts_down up) h (before logged)
  stepped s t (exits up) h before logged = kept s t (exits up) h (before logged)
  stepped s t (restarts channel) h before logged = kept s t (restarts channel) h (before logged)
  stepped s t (serves call calls others up picks) h before logged =
      elim (after_serve-IsLogged D W call.request req forwarded calls others s.sent
        (serve W call.world da_node_socket call.upstream call.request s.runner) logged) [
          | inl earlier ↦ kept s t (serves call calls others up picks) h (before earlier)
          | inr (same, reply, ended) ↦
              rw
                (runner-after_serve D W call.request calls others s.sent
                  (serve W call.world da_node_socket call.upstream call.request s.runner))
                (served call s.runner reply same h ended)
        ]

  -- From consistent trees and an empty record, let clients connect and send requests, the worker
  -- run tasks, the service shut down, end and start again on the trees as they were left, in any
  -- order, each request and each task running to its end or its panic. Whatever request for a
  -- `blob.Submit` with parameters has then been forwarded: the client had sent a bearer token, and
  -- for each submitted blob there was sent a blob with the proof that the finished tree holds under
  -- the digest of the blob's data, and holds still.
  pub ServerRun-IsPrivate :
      (s t : Process P)
      → ServerRun W da_node_socket s t
      → IsConsistent P D s.runner.queue_db s.runner.finished_db
      → s.sent ≡ []
      → IsLogged req forwarded t.sent
      → IsPrivate D W v blobs_value rest req forwarded t.runner
  ServerRun-IsPrivate s t started h none_sent logged = absurd (rw none_sent at logged)
  ServerRun-IsPrivate s t (and_then {t = u} run step) h none_sent logged =
      stepped u t step (ServerRun-Intact D W (consistency P D) run (record { trees = h })).trees
        (λ earlier. ServerRun-IsPrivate s u run h none_sent earlier) logged

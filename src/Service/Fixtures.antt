-- ===== src/Service/Fixtures.antt =====
-- The job and the states that the tests of the service and of the proxy run on.
use pda_proxy.Base.{refl, some, [], ◌∷◌, ◌++◌, ok, ok-injective, inl}
use pda_proxy.Service.Job.{Job, local_zk_proof_pending}
use pda_proxy.Service.Action.{◌>>=◌}
use pda_proxy.Service.Runner.Requests.{initial_status}
use pda_proxy.Service.Runner.Registry.{IsReliable}
use pda_proxy.Service.Runner.Registry.Request.{StartsIn}
use pda_proxy.Service.Memory.{memory, memory-IsDocumented, world, empty}
use pda_proxy.Service.Runner.State.{Runner}
use pda_proxy.Service.Runner.Startup.{IsBincode}
use pda_proxy.Service.Runner.Invariant.{IsConsistent}

abbrev pub job : Job
job = record { anchor = record { data_bytes = 9 ∷ [] }; input = record { data_bytes = 7 ∷ [] } }

abbrev pub pending : Runner memory
pending = record empty { queue_db = ((9 ∷ []), (0 ∷ [])) ∷ []; job_sender = some job ∷ [] }

-- The clients and the setup are there.
abbrev pub idle : Runner memory
idle = record empty {
  zk_client_handle_local = some 1;
  zk_client_handle_remote = some 2;
  chacha_setup = some (record { pk = 1; vk = 8 });
}

abbrev pub ready : Runner memory
ready = record idle { queue_db = ((9 ∷ []), (0 ∷ [])) ∷ []; job_sender = some job ∷ [] }

abbrev pub waiting : Runner memory
waiting = record ready { queue_db = ((9 ∷ []), (2 ∷ 4 ∷ [])) ∷ [] }

abbrev pub requesting : Runner memory
requesting = record ready { queue_db = ((9 ∷ []), (1 ∷ [])) ∷ [] }

pub empty-IsConsistent : IsConsistent memory memory-IsDocumented [] []
empty-IsConsistent = record {
  exclusive = λ k. inl refl;
  valid = record { queued_pending = λ k b h. cc; finished_final = λ k b h. cc };
}

pub memory-IsBincode : IsBincode memory
memory-IsBincode = record {
  serialize_job = λ j. ok (j.anchor.data_bytes ++ (0 ∷ j.input.data_bytes));
  serialize_input = λ i. ok (0 ∷ i.data_bytes);
  input-ne-nil = λ i h. cc h;
  input_ok = record { data_bytes = [] };
  input_ok_bytes = 0 ∷ [];
  input_ok_lem = refl;
  serialize_job-append = λ a i x y hx hy. cc (ok-injective hx, ok-injective hy);
  truncated = λ j x y h short. ("unexpected end of file", refl);
}

pub memory-IsReliable : IsReliable memory memory-IsDocumented
memory-IsReliable = record {
  reads = λ t k. refl;
  stores = λ t k v. (_, refl);
  commits = λ q f writes. (_, _, refl);
  sends = λ c m. (_, refl);
}

pub world-StartsIn : StartsIn memory memory-IsDocumented (world (ok [])) local_zk_proof_pending
unfolding initial_status ◌>>=◌
world-StartsIn = ("cpu", refl, λ r. refl, tt)

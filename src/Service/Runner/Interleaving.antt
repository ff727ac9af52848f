-- ===== src/Service/Runner/Interleaving.antt =====
-- Requests and worker tasks side by side: each may stop between any two of its accesses to the job
-- trees, a request after it has read the finished tree and again after the queue, a task after it has
-- read the queue, while the others go on. The transaction or the write that follows is its last.
pub mod Race
pub mod Retry
use pda_proxy.Base.{◌≡◌, ◌⊎◌, Option, none, some, List, [], ◌∷◌, Bytes, ok}
use pda_proxy.Service.Job.{Job, JobStatus}
use pda_proxy.Service.Platform.{Platform, World, IsDocumented}
use pda_proxy.Service.Runner.State.{Runner}
use pda_proxy.Service.Runner.Proving.{drive}
use pda_proxy.Service.Runner.Requests.{start_job, answer}
use pda_proxy.Service.Runner.Startup.{resume, shutdown}
use pda_proxy.Service.Runner.Invariant.{IsFinal, Holds, AreValid}
use pda_proxy.Service.Runner.Invariant.Laws.{TreeInvariant, Intact}
use pda_proxy.Service.Runner.Invariant.Prove.{drive-Intact}
use pda_proxy.Service.Runner.Invariant.Request.{start_job-Intact, answer-Intact}
use pda_proxy.Service.Runner.Invariant.Instances.{validity, presence}
use pda_proxy.Service.Runner.Steps.{resume-Intact, shutdown-Intact}

-- A request with what it found in the finished tree, one that found its job in neither tree, and a
-- task with the status it found in the queue.
pub data Task (P : Platform) : Type 0 where
  answering : Job → Bytes → Option Bytes → Task P
  starting : Job → Bytes → Task P
  driving : Job → Bytes → JobStatus P.Proof → Task P

-- `x` is one of `xs`, and `ys` are the others.
pub data Picks {A : Type 0} (x : A) : List A → List A → Type 0 where
  first : (xs : List A) → Picks x (x ∷ xs) xs
  later : (y : A) (xs ys : List A) → Picks x xs ys → Picks x (y ∷ xs) (y ∷ ys)

-- One turn, from a state with its tasks to a state with its tasks.
pub data Turn (P : Platform) (r : Runner P) (ts : List (Task P))
    : Runner P → List (Task P) → Type 0 where
  asks :
      (job : Job) (key : Bytes) (found : Option Bytes)
      → P.serialize_anchor job.anchor ≡ ok key
      → P.get r.finished_db key ≡ ok found
      → Turn P r ts r (answering job key found ∷ ts)
  answers :
      (w : World P) (job : Job) (key : Bytes) (found : Option Bytes) (us : List (Task P))
      → Picks (answering job key found) ts us
      → Turn P r ts (answer P w job key found r).1 us
  looks :
      (job : Job) (key : Bytes) (us : List (Task P))
      → Picks (answering job key none) ts us
      → P.get r.queue_db key ≡ ok none
      → Turn P r ts r (starting job key ∷ us)
  starts :
      (w : World P) (job : Job) (key : Bytes) (us : List (Task P))
      → Picks (starting job key) ts us
      → Turn P r ts (start_job P w job key r).1 us
  receives :
      (job : Job) (key b : Bytes) (status : JobStatus P.Proof)
      → P.serialize_anchor job.anchor ≡ ok key
      → P.get r.queue_db key ≡ ok (some b)
      → P.deserialize_status b ≡ ok status
      → Turn P r ts r (driving job key status ∷ ts)
  drives :
      (w : World P) (job : Job) (key : Bytes) (status : JobStatus P.Proof) (us : List (Task P))
      → Picks (driving job key status) ts us
      → Turn P r ts (drive P w job key status r).1 us
  restarts : Turn P r ts (resume P r).1 ts
  shuts_down : Turn P r ts (shutdown P r).1 ts

-- The runner of a new process, on the trees that an earlier one had.
abbrev pub recovered : {P : Platform} → Runner P → Runner P → Runner P
recovered s t = record t {
  config_db = s.config_db;
  queue_db = s.queue_db;
  finished_db = s.finished_db;
}

-- A run from a state whose trees have been flushed. sled recovers what was flushed, and a prefix of
-- what was written since: in `dies`, the process ends at some moment after `path`, with its tasks, and
-- a new one has the trees as they were after `path`, and a channel, clients and a setup of its own.
pub data Turns (P : Platform) (r : Runner P) (ts : List (Task P))
    : Runner P → List (Task P) → Type 0 where
  stay : Turns P r ts r ts
  then_turn :
      {s t : Runner P} {us vs : List (Task P)}
      → Turns P r ts s us
      → Turn P s us t vs
      → Turns P r ts t vs
  dies :
      {s : Runner P} {us : List (Task P)} (t : Runner P)
      → Turns P r ts s us
      → Turns P r ts (recovered s t) []

-- A property that a request may insert into without having looked.
abbrev pub Blind : {P : Platform} {D : IsDocumented P} → TreeInvariant P D → Type 0
Blind {P} T =
    ((finished : P.Tree) (key : Bytes) → T.Fresh finished key) × ((key : Bytes) → T.Allowed key)

module _ (P : Platform) (D : IsDocumented P) (T : TreeInvariant P D) (blind : Blind T) where
  -- What a request has read stays a final status, whatever happens to the trees.
  abbrev pub IsSound : Task P → Type 0
  IsSound (answering job key none) = Unit
  IsSound (answering job key (some b)) = Holds P IsFinal b
  IsSound (starting job key) = Unit
  IsSound (driving job key status) = Unit

  abbrev pub AllSound : List (Task P) → Type 0
  AllSound [] = Unit
  AllSound (t ∷ ts) = IsSound t × AllSound ts

  Picks-IsSound :
      {x : Task P} {xs ys : List (Task P)} → Picks x xs ys → AllSound xs → IsSound x × AllSound ys
  Picks-IsSound (first xs) h = h
  Picks-IsSound (later y xs ys p) (hy, h) = let (hx, hys) = Picks-IsSound p h in (hx, (hy, hys))

  found-IsSound :
      (r : Runner P) (job : Job) (key : Bytes) (found : Option Bytes)
      → T.Good r.queue_db r.finished_db
      → D.contents r.finished_db key ≡ found
      → IsSound (answering job key found)
  found-IsSound r job key none h e = tt
  found-IsSound r job key (some b) h e = T.final r.queue_db r.finished_db key b h e

  answered :
      (w : World P) (job : Job) (key : Bytes) (found : Option Bytes) (r : Runner P)
      → Intact T r
      → IsSound (answering job key found)
      → Intact T (answer P w job key found r).1
  answered w job key none r h s =
      answer-Intact P D (T) w job key none r (blind.1 key) h (blind.0 r.finished_db key)
  answered w job key (some b) r h s = answer-Intact P D (T) w job key (some b) r (blind.1 key) h s

  abbrev pub IsSafe : Runner P → List (Task P) → Type 0
  IsSafe r ts = Intact T r × AllSound ts

  Turn-IsSafe :
      {r s : Runner P} {ts us : List (Task P)} → Turn P r ts s us → IsSafe r ts → IsSafe s us
  Turn-IsSafe {r} (asks job key found e f) (h, sound) =
      (h, (found-IsSound r job key found h.trees (D.get-contents r.finished_db key found f), sound))
  Turn-IsSafe {r} (answers w job key found us p) (h, sound) =
      let (mine, others) = Picks-IsSound p sound in (answered w job key found r h mine, others)
  Turn-IsSafe (looks job key us p e) (h, sound) =
      let (_, others) = Picks-IsSound p sound in (h, (tt, others))
  Turn-IsSafe {r} (starts w job key us p) (h, sound) =
      let (_, others) = Picks-IsSound p sound in
      (start_job-Intact P D (T) w job key r (blind.1 key) h (blind.0 r.finished_db key), others)
  Turn-IsSafe (receives job key b status e f g) (h, sound) = (h, (tt, sound))
  Turn-IsSafe {r} (drives w job key status us p) (h, sound) =
      let (mine, others) = Picks-IsSound p sound in
      ((drive-Intact P D (T) w job key status (blind.1 key)).at r h, others)
  Turn-IsSafe {r} restarts (h, sound) = ((resume-Intact P D T).at r h, sound)
  Turn-IsSafe {r} shuts_down (h, sound) = ((shutdown-Intact P D T).at r h, sound)

  pub Turns-IsSafe :
      {r : Runner P} {ts : List (Task P)} {s : Runner P} {us : List (Task P)}
      → Turns P r ts s us
      → IsSafe r ts
      → IsSafe s us
  Turns-IsSafe stay h = h
  Turns-IsSafe (then_turn path turn) h = Turn-IsSafe turn (Turns-IsSafe path h)
  Turns-IsSafe (dies t path) h =
      let (intact, _) = Turns-IsSafe path h in (record { trees = intact.trees }, tt)

module _ (P : Platform) (D : IsDocumented P) where
  -- However requests and worker tasks interleave, between any two of their accesses to the job trees,
  -- whenever the process dies, with its tasks, and is started again on the trees of that or an earlier
  -- moment of the run, and whatever the environment answers: from valid trees and no tasks, every
  -- queued job keeps a pending status, and every finished job a proof or a failure that is final or to
  -- be retried with a pending status.
  pub Turns-AreValid :
      (r s : Runner P) (us : List (Task P))
      → Turns P r [] s us
      → AreValid P D r.queue_db r.finished_db
      → AreValid P D s.queue_db s.finished_db
  Turns-AreValid r s us path h =
      (Turns-IsSafe P D (validity P D) (λ finished key. tt, λ key. tt) path
        (record { trees = h }, tt)).0.trees

  -- However requests and worker tasks interleave, between any two of their accesses to the job trees,
  -- and whatever the environment answers: from valid trees and no tasks, a job that is queued or
  -- finished at the start of the run stays in one of the trees, also when the process dies and is
  -- started again on the trees of any moment since the start. Where the trees are flushed at the
  -- start, these are the ones that sled recovers; a job that was written later, and not flushed, may
  -- be lost.
  pub Turns-keep_job :
      (r s : Runner P) (us : List (Task P)) (key : Bytes)
      → Turns P r [] s us
      → AreValid P D r.queue_db r.finished_db
      → ((b : Bytes) × (D.contents r.queue_db key ≡ some b))
        ⊎ ((b : Bytes) × (D.contents r.finished_db key ≡ some b))
      → ((b : Bytes) × (D.contents s.queue_db key ≡ some b))
        ⊎ ((b : Bytes) × (D.contents s.finished_db key ≡ some b))
  Turns-keep_job r s us key path valid somewhere =
      (Turns-IsSafe P D (presence P D key) (λ finished k. tt, λ k. tt) path
        (record { trees = record { valid = valid; somewhere = somewhere } }, tt)).0.trees.somewhere

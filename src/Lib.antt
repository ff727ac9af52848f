-- ===== src/Lib.antt =====
-- The proxy for private data availability: a client submits blobs, the proxy has each encrypted
-- under a zero-knowledge proof, forwards the proofs to the upstream Celestia node, and decrypts
-- what it reads back from there.
--
-- Base holds what the parts share: Boolean tests and lists over the native numbers, bytes, Rust's
-- `Result`, xor.
--
-- Zkvm is the code of zkVM/. Primitives, Hex and Output model zkVM/common/src/lib.rs (`chacha`,
-- `bytes_to_hex`, `ZkvmOutput::from_bytes` and its `Debug`), Program the guest
-- zkVM/sp1/program-chacha/src/main.rs as a function from what it reads to what it commits, Cli
-- the tool zkVM/sp1/src/bin/cli.rs, Vkey the tool zkVM/sp1/src/bin/vkey.rs. Examples has runs.
--
-- Service is service/src/internal. Job models job.rs and error.rs. Action is the monad of a
-- method: explicit state, `Result`, and panics as a third outcome; the state is kept after an
-- error. Platform names what the methods take from outside, and World what the environment
-- answers in one call. Runner models runner.rs: State has the fields of `PdaRunner`, Setup the
-- clients and the proof setup, Jobs `finalize_job` and `send_job_with_new_status`, Proving
-- `prove` with all it calls, Requests `get_verifiable_encryption`, Startup the restart loop of
-- service/src/main.rs and `shutdown`, Worker the receive loop of `job_worker` as the jobs that it
-- spawns. Its child Rounds has the same loop on its channel, with its end, each task run to its
-- end before the next message; Progress says what a task does where the prover is answered,
-- Attended that each queued job has a message, Weight and Descent bound the tasks that are left,
-- Running and Requested keep this from round to round and from request to request, and
-- Termination and Answering conclude; Pool, Drain and Drained do the same for tasks that run side
-- by side; Channel, Asked and Shutdown are about the message to end. Invariant says when the two
-- job trees are valid and consistent; its children state what a property of the trees needs to
-- survive the methods (Laws), go through them once for all such properties (Methods, Prove,
-- Request), and fill it with four of them (Instances). Steps joins requests, runs of the worker,
-- restarts and shutdowns to a step relation, each step running to its end. Interleaving lets
-- requests and worker tasks stop between any two of their accesses to the job trees, while others
-- go on, and the process may die and come back on the trees of an earlier moment of the run, as
-- sled recovers what was flushed and a prefix of what was written since; its children Race and
-- Retry are two such schedules. Answers, Lifecycle, Network and Failures are about requests and
-- the worker together. Registry is the abstract view of a job, the phases absent, queued and
-- settled, with what a request and a reply of the prover do to it; its children Request and Work
-- compare the methods with it, Completion and Remote follow a job through them. Memory is a
-- platform in memory, Fixtures has states on it, for the runs in Examples.
--
-- Proxy is service/src/main.rs. Json and Wire have JSON values, requests and responses, and the
-- libraries on them; Inbound, Outbound and Decrypt the handlers of the same names; Serve the
-- service function; Startup the set-up of `main`, with `load_certs` and `load_private_key` of
-- service/src/internal/util.rs, `PdaRunner::new` and the tasks that `main` spawns, its child
-- Signals `wait_shutdown_signals` and the task that shuts down after it; Server the accept loop,
-- as steps of a process with its connections and the record of what was sent upstream. Their
-- children, and Trees, Submission and Retrieval, have the theorems, Examples runs of them.
-- Submission follows a blob through the service function, the runner and its worker, Retrieval on
-- to the upstream node and back.
--
-- Rpc is service/src/rpc, the interface of a Celestia node: State and Blob have its calls, their
-- names on the wire, the types of their results and the stand-in servers, TxConfig the options of
-- a transaction. The service does not compile this directory.
--
-- The crates chacha20, sha2, bincode, sled, tokio, hex, serde_json, celestia_types, hyper and
-- sp1_sdk are parameters: records of operations (Zkvm.Primitives.Primitives,
-- Service.Platform.Platform, Proxy.Wire.Wire; for the set-up Proxy.Startup.Machine, with rustls
-- and the operating system; for serde Rpc.TxConfig.Serializer), with their documented behaviour
-- in the records called IsDocumented, and Service.Runner.Startup.IsBincode. The phases of a job
-- are about a database and a channel that do not fail (Service.Runner.Registry.IsReliable);
-- everything else has all failures. Building a client with the SDK may fail, which is a panic. A
-- store that fails returns an error and keeps its contents; a transaction is the list of its
-- writes. The upstream node is a function from requests to replies.
--
-- Bytes are numbers below 256 where a theorem needs that; lengths are the constants of the source
-- (32, 12, 32). All recursion is on lists, but for the loop of `job_worker` in Rounds and
-- Shutdown of Worker: it takes the number of rounds as fuel, and a round has an environment of
-- its own. Twice the messages and one round more is enough where both clients are built, the
-- setup is cached, the key and the fulfilment strategy are set, and every call of the prover is
-- answered (Progress.Has and Progress.IsServed), since a job takes two tasks at most (the request
-- to the network and the wait for it), and a failed one waits for a client; after `shutdown` the
-- messages before it and one round more are enough, whatever happens.
--
-- Not modelled: the TLS handshake beyond its success or failure, CORS and the plumbing of HTTP
-- bodies, logging, the build script, the shell scripts, and the derived `Deserialize` of
-- `TxConfig`. What a kill loses of the unflushed writes is in Interleaving only: in Steps and in
-- Server a restart finds the trees as they were left. Tasks and requests interleave at the job
-- trees in Interleaving, and take turns as a whole in Steps, in Server and in the rounds of
-- Worker; the sends to the channel and the cells of the clients and of the proof setup come with
-- the access to the trees that they follow. In the set-up, what is built in memory only (the
-- channel, the HTTP client, the TLS acceptor) is a value without an effect.
pub mod Base
pub mod Zkvm
pub mod Service
pub mod Proxy
pub mod Rpc

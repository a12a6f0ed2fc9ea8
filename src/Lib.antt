-- ===== src/Lib.antt =====
-- CatalystSVM: batches of transactions are executed, proved in a zero-knowledge virtual machine,
-- verified, and settled on a chain.
--
-- How the parts interact. Transactions come into the pipeline, which keeps them in a fast lane and
-- a queue until a batch policy says to seal. A sealed batch goes to the executor, which runs its
-- instructions over an ordered map of balances and builds a trace with hash commitments. The
-- prover runs the same instructions again in the guest, which compares its roots, its trace hash
-- and its compute units with the trace and commits them; the verifier compares what was committed
-- with the trace. The on-chain program keeps a receipt per batch. The validator runs these parts as a
-- server: it queues what clients submit, seals batches, and leaves a proof and a trace in a directory;
-- the verifier node reads them there, keeps the chain of verified batches and attests them.
--
-- Which file models what (paths from the root of the repository):
--   Common/Types, Errors, Clock     crates/common/src/types.rs, errors.rs, clock.rs
--   Common/Hashing, Common/Merkle   crates/common/src/merkle.rs
--   Trace                           crates/trace-builder/src/lib.rs
--   Executor                        crates/execution-engine/src/lib.rs
--   Guest                           crates/sp1-program/src/main.rs
--   Prover                          crates/sp1-prover/src/lib.rs
--   Verifier                        crates/sp1-verifier/src/lib.rs
--   Policy/Fixed, Adaptive, Auto    crates/batch-policy/src/lib.rs
--   Policy/Engine                   the trait PolicyEngine of crates/common/src/lib.rs, create_policy
--   Ingress                         crates/ingress/src/lib.rs
--   Metrics                         crates/common/src/metrics.rs
--   Pipeline                        crates/benchmark-cli/src/engine.rs
--   Simulation                      run_simulation of crates/benchmark-cli/src/main.rs
--   Simulation/Comparison           its commands Simulate and Compare
--   Simulation/Reports, Charts      what it prints, saves and draws of the results
--   Rpc, Host                       what both nodes take from outside: JSON, paths, encodings, files
--   VerifierNode                    examples/verifier-node/src/main.rs: the state, the verification
--   VerifierNode/Service, Polling   its broadcasts, requests and connections; its polling
--   Validator                       examples/validator/src/main.rs: the state, the queue, the sealing
--   Validator/Batches, Service      its processing of batches; its requests and connections
--   Client                          examples/client/src/main.rs
--   Batcher                         onchain/catalyst_batcher/programs/catalyst_batcher/src/lib.rs
-- Prelude, Text and OrderedMap hold what these share: numbers, lists and results, strings as lists
-- of bytes with Rust's formats, and BTreeMap as a list of pairs in the order of the keys. The
-- children of a module hold its theorems; Tests holds runs of the code.
--
-- State. A function that takes `&mut self` is a function into the changed record; one that can fail
-- returns its result and the record, since what it changed before an error stays changed. The
-- executor's state is the ordered map, the guest's is the same. A 64-bit sum is written with its
-- wrap-around (`wrap64`), as the release profile compiles it; the on-chain program is built with
-- overflow checks, so a sum that overflows is an error there. Counts of the elements of a vector
-- are not bounded.
--
-- Parameters. `Hasher` is SHA-256: a function into 64 characters, of which nothing else is
-- assumed; where a theorem would need that no two inputs collide, it exhibits the collision
-- instead. `Float` is the arithmetic of f64, of which nothing is assumed, but for `IsFloored`
-- where the generator casts a number that is at least 1. `Sdk` lists the calls of the zkVM's SDK,
-- `IsFaithful` what the SDK documents: it proves and verifies runs of the guest. `Stages` are the
-- pipeline's type parameters. `Host` is what the nodes take from encodings and from the names of
-- files, `RoundTrips` says that what was encoded is decoded; the join of paths is written out,
-- for Unix; `Json` and the parsers read the lines; `Readings` are the clock, the files and the
-- outcomes of one call. `Rng` is the random number generator of the workload, of which only the
-- ranges that its calls name are assumed. `SetOrder` is the order in which a HashSet is iterated,
-- of which it is assumed that each element comes once; `fixed` prints an f64.
--
-- Tasks. The two nodes serve many connections at once over a state behind a lock. A handler is a
-- function, as if nothing came in between; VerifierNode/Steps and Validator/Steps also give the writes
-- under the lock as a step relation, whose paths are all the interleavings, and show that the handlers
-- are such paths. A write under the lock is one step; what a task computes without the lock reads no
-- shared state.
--
-- Fuel. The loop of a Merkle root runs on the number of the leaves, and each round at least halves
-- them; a number is printed on one more than itself; the loop of `flush` needs one round; the generator
-- ends after as many rounds as transactions remain. That the fuel is enough is proved beside each.
--
-- Not modelled: sockets, threads and logs of the nodes, the interval of the timer (its ticks are a
-- list), what the client prints, how the benchmark's command line draws its tables and charts and
-- quotes its files, the parsing of arguments, the system clock and the random name of a node, the build
-- script, and the accounts' rent and payers on the chain. A process that stops between two writes is
-- not modelled either.
pub mod Prelude
pub mod Text
pub mod OrderedMap
pub mod Common
pub mod Trace
pub mod Executor
pub mod Guest
pub mod Prover
pub mod Policy
pub mod Verifier
pub mod Ingress
pub mod Metrics
pub mod Pipeline
pub mod Simulation
pub mod Rpc
pub mod Host
pub mod VerifierNode
pub mod Validator
pub mod Client
pub mod Batcher
mod Tests

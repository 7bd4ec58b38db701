-- ===== src/Lib.antt =====
-- AstrumWeaver hands jobs to GPU workers. Workers register with a control plane, send heartbeats
-- and claim jobs; clients submit jobs, with an idempotency key if they like; a claim gives a lease
-- with a fencing token, under which the worker completes or fails the job; sweeps expire silent
-- workers and recover jobs whose lease has run out. This library models the rules of that control
-- plane, from the constructors of its records to histories of calls; the Worker's loop that claims
-- and reports jobs, the handover of a machine between its user and the Worker, and the mapping of
-- physical GPUs to device nodes under which a Worker is confined to its own; and the choice of the
-- model runtime that serves a demand, its life cycle and the monitor of its health.
--
-- Which file models which code (paths below src/astrumweaver):
--   Contracts: contracts.py. `resource_shape`, `worker_spec`, `accelerator_device` and
--     `job_requirements` are the `__post_init__` of the classes: from the raw arguments to the
--     checked record or an error. Contracts/Capability has `normalize_compute_capability` and
--     `compute_capability_key`, Contracts/Equality the `==` of the frozen dataclasses.
--   Scheduling: scheduling.py, `match_worker` with its reasons, and `worker_matches`.
--   Execution: execution.py, the requests and results of executors.
--   Control/Models: control/models.py, the records of workers, jobs and requests.
--   Control/Repository: `InMemoryControlRepository` of control/repository.py. State has its
--     fields, Workers and Jobs one function for each method under the method's name, Jobs/Updates
--     the records that `with_updates` writes. Calls has the calls as data and histories of them.
--     The other modules of the folder prove: Cases how each method can end, Lease the fencing,
--     Books and Accounting the counts of running jobs, Ownership and Safety the devices, Selection
--     and Claims the choice of a job, Settling completion and failure (Settling/Outcome says what
--     they leave, field by field), Sweeps the two sweeps, Evolution and History the state machine
--     of jobs, Idempotency the keys, Atomicity the errors.
--   Runtime/Demand: the demands and reports of runtime/contracts.py. Runtime/Planner:
--     `RuntimeCatalog` and `resolve_runtime` of runtime/planner.py, with a provider as its
--     information and its compatibility function, and what a call returns or raises as `Outcome`;
--     below it Compatibility and Resolution prove what a resolution promises.
--   Runtime/Lifecycle: `RuntimeLifecycleManager` of runtime/lifecycle.py. The managed runtime,
--     the event loop's clock and `asyncio.sleep` are operations on a world of any type, each of
--     which may raise but for the clock and the sleep. The loops have fuel for one round more than
--     the microseconds of the timeout, which is enough if a probe never turns the clock back and a
--     sleep moves it on.
--   Worker/Supervision: `RuntimeHealthSupervisor` of worker/supervision.py. A probe is two steps,
--     one before and one after its wait, and `Event` lists what the event loop may put between
--     them; Latch and Lease prove what availability means.
--   Worker/Loop: `WorkerRuntime` of worker/runtime.py: its fields, readiness, heartbeats and
--     acknowledgements. Rounds and Forever compose them into registration, claims, executions and
--     `run_forever`, as calls that change a world and may raise (Worker/Run). The client, the
--     executor, the supervisor, the lock and the clock are operations on the world; each tells
--     which signals came in while it waited. Sends and Runs prove when jobs are claimed and
--     reported; from them Drain proves what a drain means that comes in at any time, and Bounds how
--     long an acknowledgement counts. Both speak of the world's past (whether a drain was asked
--     for, when the last heartbeat was sent) by a function of the world that the operations update;
--     Keeping has what they share. At its end a run closes the supervisor and its runtime; where
--     that raises, the run ends with the error and the Worker is not set offline.
--   Worker/Preflight: the checks of worker/runtime.py before a Worker starts; Preflight/Confined
--     proves what the one of its isolation means.
--   Worker/Mode: `BorrowableWorkerController` of worker/mode.py over a service, its health, the
--     GPUs, a clock and a sleep; Worker/Mode/Probes has `SystemdServiceManager` by exit codes and
--     `NvidiaGPUProbe` by the tables of nvidia-smi. Handover, Guards and Ending prove what a
--     handover has seen, when it starts and stops the service, and that it ends; Probes/Free what
--     it means that no process is reported.
--   GpuMapping: gpu_mapping.py. Query has the queries of nvidia-smi, Nodes the kernel's files and
--     the check of the device nodes (Nodes/Sources proves which row or file a GPU's minor comes
--     from), Review the reviewed map and the probe of isolation, Program the command. The result of
--     `subprocess.run`, `str.casefold`, the texts of files, `stat`, `open` and `close` are
--     parameters, and the command line and the configuration file are parsed already.
--   Prelude, Dict, Text, Sets, Value and Result: numbers, Python's `dict`, `str.strip`,
--     `frozenset`, JSON values, and calls that raise, with the laws that the parts share.
--
-- Conventions. A method takes the repository and returns its result with the repository as it
-- leaves it, also where it raises; the repository's lock makes each call one step. A call of
-- `uuid4` is an argument: the identity of a new job, which is fresh by hypothesis, and the token
-- of a lease. Instants are microseconds of UTC on the natural numbers, so an expiry that would lie
-- before the first instant is the first instant; a call that names no time takes the clock's,
-- again an argument. A `dict` is a list of entries in the order of insertion, and a `frozenset` a
-- list that only membership reads. The text of an error is shortened to what tells it from others.
-- The waits of a handover have a fuel, for which one more than the timeouts' microseconds is enough;
-- the Worker's loop and the wait for an execution, which may go on for ever, have one for the rounds
-- that are looked at. No other loop needs fuel but the printing of a number, which has one round more
-- than the number. `int` reads ASCII digits only.
--
-- Not modelled: floating-point metrics, the PostgreSQL repository, HTTP, the start of the processes,
-- the heartbeat that `drain` sends while another task of the Worker runs, the runtime providers, the
-- setup tools and the validation reports, which read machines, files and sockets.
pub mod Prelude
pub mod Dict
pub mod Text
pub mod Sets
pub mod Value
pub mod Result
pub mod GpuMapping
pub mod Contracts
pub mod Scheduling
pub mod Execution
pub mod Control
pub mod Runtime
pub mod Worker

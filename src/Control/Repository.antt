-- ===== src/Control/Repository.antt =====
-- control/repository.py: the in-memory control repository. Its state is a record, each method a
-- function that returns the result and the state as the call leaves it. The instant `now` of a call
-- is what `_aware(now)` gives; what `uuid4` gives is an argument.
pub mod State
pub mod Workers
pub mod Jobs
pub mod Cases
pub mod Lifecycle
pub mod Lease
pub mod Accounting
pub mod Selection
pub mod Calls
pub mod Books
pub mod Ownership
pub mod Safety
pub mod Sweeps
pub mod Evolution
pub mod History
pub mod Claims
pub mod Settling
pub mod Idempotency
pub mod Atomicity
pub mod Examples
pub mod Witnesses

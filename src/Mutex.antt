-- ===== src/Mutex.antt =====
-- src/os/src/flexpret_mutex.c. A mutex is a record in memory and a CSR; taking the mutex is an atomic swap
-- of the CSR. A mutex id is a pointer to an element of `startup_mutex_state`, or NULL (`none`).
pub mod Csr
pub mod Ops
pub mod Wait
pub mod Laws
pub mod Nesting
pub mod Others
pub mod Exclusion
pub mod Progress
pub mod Lock
pub mod Refines

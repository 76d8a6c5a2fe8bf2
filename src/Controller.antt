-- ===== src/Controller.antt =====
-- internal/controller: the reconciler of the configuration Secret.
pub mod Stable
pub mod Front
pub mod Backoff
pub mod Annotations
pub mod Connect
pub mod Certs
pub mod Reconcile
pub mod Protocol
pub mod Safety
pub mod Ledger
pub mod Series
pub mod Events
pub mod Manager
pub mod Timely
pub mod Converges
pub mod Waits
pub mod Settles
pub mod Noticed
pub mod Pushed
pub mod Alert

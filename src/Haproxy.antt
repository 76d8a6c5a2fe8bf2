-- ===== src/Haproxy.antt =====
-- internal/haproxy: the Dataplane API client and its error classes.
pub mod Target
pub mod Errors
pub mod Results
pub mod Verify
pub mod Client
pub mod Ready
pub mod Certificates
pub mod Leaf
pub mod Push
pub mod Healthy

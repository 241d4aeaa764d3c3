-- ===== src/Endpoint.antt =====
-- src/endpoint/endpoint.h and endpoint.cpp: class Endpoint, the base of the ingress and the egress.
pub mod State
pub mod Changes
pub mod Connections
pub mod Remote
unfoldable pub use State.*

-- ===== src/Agent.antt =====
-- worker/: the requests that a worker sends, with what the network does to them, and the upload of its
-- result files.
pub mod Network
pub mod ApiClient
pub mod ArtifactManager
pub mod Delivery

-- ===== src/Web.antt =====
-- app/main.py: who may call the server, and the calls of the workers. `compare_digest` is equality;
-- `hash_worker_secret` stays a parameter, with the hash that it makes of a secret.
pub mod Auth
pub mod Uploads
pub mod Laws
pub mod Install

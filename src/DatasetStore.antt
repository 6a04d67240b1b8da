-- ===== src/DatasetStore.antt =====
-- app/dataset_store.py: the dataset versions and the copies that the workers hold, without the
-- registration of versions, which copies files.
pub mod Queries
pub mod Laws
pub mod Caches
pub mod Deletion

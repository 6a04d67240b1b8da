-- ===== src/Lib.antt =====
-- The server of cloudlink: a queue of tasks in an SQLite database, and the workers that claim from it.
-- Submitters create tasks and may cancel them; workers are installed by an invite, register, report what
-- they have, claim a task under a lease, renew the lease, upload files of results, and report a success or
-- a failure; expiry ends what has waited too long or whose lease has run out. What a worker may get depends
-- on its version, its concurrency, its hardware less what its running tasks have reserved, and the dataset
-- versions that it has cached. Uploaded files are purged when their time is over.
--
-- Files and code:
-- - Database: app/database.py, the tables as lists of rows in the order of their insertion
--   (Database/Tasks, Database/Workers, Database/Datasets, Database/Storage), and store functions as
--   computations over them (Database/Action: autocommit, and BEGIN IMMEDIATE with ROLLBACK; Database/Runs:
--   what a run has done; Database/Safe: what a run leaves true).
-- - Errors: the exceptions of the stores. Settings of app/config.py stand in Database/Action.
-- - ResourceModel: app/resource_model.py. Types has its dictionaries, Request is
--   normalize_resource_request (Request/Laws the proofs on it), Profile is subtract_reserved_profile, Fits is fits_capacity.
-- - Version: app/version.py, and Version/Order its order.
-- - DatasetStore: app/dataset_store.py. Queries are get_dataset_version, released_dataset_ids and
--   worker_has_verified_caches; Caches the copies of workers and the deletion of a version.
-- - TaskStore: app/task_store.py. Workers, Capacity, Listing and Scheduling are the views of workers and
--   what they have (Capacity/Devices on GPU reservations); Queue, Submit, Touch, Claim and Report are the
--   operations on tasks, each under the name of its function: create_task, queue_status (in Status),
--   touch_worker, update_worker_concurrency, claim_task, renew_task_lease, report_success, report_failed,
--   cancel_task. Roots are the dataset directories of workers, Registration is register_worker and
--   update_worker_settings.
-- - LifecycleStore: app/worker_lifecycle_store.py, and LifecycleStore/Laws the proofs on it. Its functions
--   return the worker, from which the answers are read off.
-- - InstallerStore and AdminStore: app/installer_store.py and app/admin_store.py.
-- - ArtifactStore: app/artifact_store.py, with its files in ArtifactStore/Disk. StorageCleanup:
--   app/storage_cleanup.py, with purge_expired_artifacts and release_dataset_server_copy in
--   StorageCleanup/Purge.
-- - Web: of app/main.py the authorisation and the mapping of errors (Web/Auth), the endpoints of uploads
--   (Web/Uploads) and the registration of an installed worker (Web/Install).
-- - Agent: the upload of results by a worker. Agent/ApiClient is worker/api_client.py, Agent/ArtifactManager
--   is upload_file_chunks of worker/artifact_manager.py, against the interface Server, which Web/Laws fills
--   with the endpoints.
-- - Proofs: TaskStore/Lifecycle on single rows and operations, TaskStore/History on sequences of calls,
--   TaskStore/Assignment on claims, TaskStore/Outcomes on reports and cancellations, TaskStore/Expiry on
--   time and limits, TaskStore/Dangling on missing dataset versions, ArtifactStore/Receipt and
--   Agent/Delivery on the two sides of an upload. Tests holds sample systems.
--
-- How it is modelled:
-- - A time is a number of microseconds. The clock is read by the caller: `now` is the first reading of a
--   function, and `later` the one that stands for the further readings in it. A cleanup reads it once.
-- - Identifiers are texts. A fresh uuid4, token or salt is an argument, and so are the digests, as any
--   functions: `digest` on texts, `sha256` on bytes, `pbkdf2` and the reading of its `iterations`, the path
--   of a manifest and the resolution of paths, `resolve`. A JSON
--   payload is its text and the keys that the server
--   reads; a size in bytes is that of the text in UTF-8. A key with the value null is
--   read as missing, but in a resource request, where null is a value that is no number.
-- - A JSON number is a whole number, a binary fraction, negative, or no number; infinities are left out.
--   `float` rounds to 53 bits, and amounts in stored profiles are not negative. `float_exact` says that
--   below 2 ^ 53 nothing is rounded.
-- - Upper and lower case, blanks and digits are those of ASCII.
-- - SQL orders are stable sorts on the key; rows with the same creation time keep their insertion order.
--   LIKE ignores the case of ASCII letters.
-- - The files of the server are part of the state, and no transaction writes them;
--   directories are not modelled.
-- - A network is the list of what becomes of the requests to come, answered, lost before the server or lost
--   after it; when the list is used up the network is down. The file that is uploaded does not change, and
--   no other request touches its artifact meanwhile.
-- - Loops run over a list, by structural recursion. The one loop without such a bound, that of the upload,
--   takes a number of rounds.
--
-- Not modelled: the registration and listing of dataset versions, the queries for display, such as
-- list_tasks and the summary of storage, the other endpoints of the web layer, the
-- dashboard, the installer scripts, and of the worker agent the loop over tasks, the dataset manager, the
-- script runner and the probing of hardware; the command-line clients. SQLite itself is not in the
-- repository; what is used of it is the reading of its statements given above.
pub mod Prelude
pub mod Errors
pub mod ResourceModel
pub mod Version
pub mod Database
pub mod DatasetStore
pub mod TaskStore
pub mod LifecycleStore
pub mod ArtifactStore
pub mod Tests
pub mod StorageCleanup
pub mod InstallerStore
pub mod AdminStore
pub mod Web
pub mod Agent

-- ===== src/DatasetStore/Deletion.antt =====
-- The deletion of a dataset version.
use cloudlink.Prelude.{
  ℕ, Bool, ◌&&◌, String, List, [], ◌∷◌, none, ◌≡◌, refl, arith, ◌==◌, string_eq, find, count_where,
  delete_where, ltb,
}
use cloudlink.Errors.{ok, err, raise_if, dataset_not_found, dataset_conflict}
use cloudlink.Database.Datasets.{DatasetVersion, Cache}
use cloudlink.Database.Action.{Db, execute}
use cloudlink.Database.Safe.{Leaves, Leaves-query, Leaves-execute, Leaves-result}
use cloudlink.DatasetStore.Queries.{get_dataset_version, is_live}
use cloudlink.DatasetStore.Caches.{
  active_copies, forget_version, delete_dataset_version, remove_copy,
}

no_version :
    (live : DatasetVersion → Bool) (id : String) (vs : List DatasetVersion)
    → find (λ v. v.id == id && live v) (delete_where (λ v. v.id == id) vs) ≡ none
no_version live id [] = refl
no_version live id (v ∷ vs) = ground (arith, no_version live id vs)

no_cache :
    (id : String) (cs : List Cache)
    → count_where
        (λ c. c.dataset_version_id == id)
        (delete_where (λ c. c.dataset_version_id == id) cs)
      ≡ 0
no_cache id [] = refl
no_cache id (c ∷ cs) = ground (arith, no_cache id cs)

none_active :
    (n : ℕ) (u : Unit {0})
    → raise_if (ltb 0 n) (dataset_conflict "Dataset version has active worker cache") ≡ ok u
    → n ≡ 0
none_active n u h = ground arith

-- A deletion that returns had no copy of the version in use by a worker, and after it the version is not found and no copy
-- of it is on record.
pub delete_dataset_version-gone :
    (manifest_path : String → String) (id : String) (u : Unit {0}) (db after : Db)
    → delete_dataset_version manifest_path id db ≡ (ok u, after)
    → (active_copies db id ≡ 0)
      × (get_dataset_version after id ≡ err (dataset_not_found id))
      × (count_where (λ c. c.dataset_version_id == id) after.caches ≡ 0)
unfolding delete_dataset_version
delete_dataset_version-gone manifest_path id u db after returns =
    (Leaves-result (λ _. Unit {0})
      (λ _ d.
        (active_copies db id ≡ 0)
        × (get_dataset_version d id ≡ err (dataset_not_found id))
        × (count_where (λ c. c.dataset_version_id == id) d.caches ≡ 0))
      _ u after
      (Leaves-query _ _ _ _ db tt λ v _. Leaves-query _ _ _ _ db tt λ _ idle.
        Leaves-execute _ _ _ _ db
          (forgotten (remove_copy manifest_path v db) (none_active _ _ idle)))
      returns).1
  where
    forgotten :
        (d : Db)
        → active_copies db id ≡ 0
        → Leaves
            (λ _. Unit {0})
            (λ _ e.
              (active_copies db id ≡ 0)
              × (get_dataset_version e id ≡ err (dataset_not_found id))
              × (count_where (λ c. c.dataset_version_id == id) e.caches ≡ 0))
            (execute (forget_version id) d)
    forgotten d idle =
        unfold Leaves execute get_dataset_version in
        (tt, (idle, rw (no_version (is_live d) id d.versions) refl, no_cache id d.caches))

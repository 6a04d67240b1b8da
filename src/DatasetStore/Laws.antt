-- ===== src/DatasetStore/Laws.antt =====
-- Facts about the dataset queries: when the released list raises, and what a verified cache is.
use cloudlink.Prelude.{
  true, if◌then◌else◌, arith, ◌&&◌, String, List, [], ◌∷◌, none, ◌≡◌, ◌==◌, string_eq, find,
  non_empty, Bool-cases, Option-cases, ◌⊎◌, inl, inr,
}
use cloudlink.Errors.{Error, Result, ok, err, ◌>>=◌, dataset_not_found}
use cloudlink.Database.Tasks.{DatasetReference}
use cloudlink.Database.Datasets.{DatasetVersion}
use cloudlink.Database.Action.{Db}
use cloudlink.DatasetStore.Queries.{
  get_dataset_version, released_dataset_ids, required_id, is_live, is_released,
}

-- A reference to a version that does not exist, or no longer does.
abbrev IsDangling : Db → DatasetReference → Type 0
IsDangling db r =
    (non_empty (required_id r) ≡ true)
    × (find (λ v. v.id == required_id r && is_live db v) db.versions ≡ none)

abbrev pub Dangles : Db → List DatasetReference → Type 0
Dangles db [] = ⊥
Dangles db (r ∷ rs) = IsDangling db r ⊎ Dangles db rs

-- With one such reference the released versions are not computed.
pub released_dataset_ids_dangling :
    (db : Db) (rs : List DatasetReference)
    → Dangles db rs
    → (id : String) × (released_dataset_ids db rs ≡ err (dataset_not_found id))
unfolding released_dataset_ids get_dataset_version
released_dataset_ids_dangling db [] h = absurd h
released_dataset_ids_dangling db (r ∷ rs) (inl (given, missing)) =
    (required_id r, rw (given, missing, get_dataset_version))
released_dataset_ids_dangling db (r ∷ rs) (inr h) =
    let (id, e) = released_dataset_ids_dangling db rs h in
    elim (Bool-cases (non_empty (required_id r))) [
      | inl given ↦
          elim (Option-cases (find (λ v. v.id == required_id r && is_live db v) db.versions)) [
            | inl missing ↦ (required_id r, rw (given, missing, get_dataset_version))
            | inr (v, found) ↦ (id, rw (given, found, e, get_dataset_version))
          ]
      | inr blank ↦ (id, rw (blank, e))
    ]

-- It raises nothing else.
pub released_dataset_ids-err :
    (db : Db) (rs : List DatasetReference) (e : Error)
    → released_dataset_ids db rs ≡ err e
    → (id : String) × (e ≡ dataset_not_found id)
unfolding released_dataset_ids get_dataset_version
released_dataset_ids-err db [] e h = absurd (cc)
released_dataset_ids-err db (r ∷ rs) e h = elim (Bool-cases (non_empty (required_id r))) [
  | inr blank ↦ released_dataset_ids-err db rs e (rw blank at h)
  | inl given ↦
      elim (Option-cases (find (λ v. v.id == required_id r && is_live db v) db.versions)) [
        | inl missing ↦
            let raised : err (dataset_not_found (required_id r)) ≡ err e =
              rw (given, missing) at h in
            (required_id r, ground arith)
        | inr (v, found) ↦
            past r v (released_dataset_ids db rs) (released_dataset_ids-err db rs e)
              (rw (given, found) at h)
      ]
]
  where
    past :
        (r : DatasetReference) (v : DatasetVersion) (rest : Result (List String))
        → (rest ≡ err e → (id : String) × (e ≡ dataset_not_found id))
        → (rest >>= λ ids.
            ok (if is_released v.server_copy_status then required_id r ∷ ids else ids))
          ≡ err e
        → (id : String) × (e ≡ dataset_not_found id)
    past r v (ok ids) k q = absurd (cc)
    past r v (err x) k q = k q

-- ===== src/ArtifactStore/Disk.antt =====
-- The files of the server by their paths.
use cloudlink.Prelude.{
  Bool, false, String, List, [], ◌∷◌, ◌++◌, Option, none, some, ◌≡◌, refl, arith, ◌==◌, string_eq,
  ℕ, find, delete_where, is_some, beq_self,
}
use cloudlink.Database.Storage.{File, regular}
use cloudlink.Database.Action.{Db}
use text.Mathlib.TextEquality.{eq_iff}

abbrev pub has_path : String → File → Bool
has_path path f = f.path == path

unfoldable pub file_at : Db → String → Option File
file_at db path = find (has_path path) db.files

abbrev pub exists : Db → String → Bool
exists db path = is_some (file_at db path)

abbrev pub content_of : Option File → List ℕ
content_of none = []
content_of (some f) = f.content

-- What `path` holds; nothing is read from a missing file.
abbrev pub content_at : Db → String → List ℕ
content_at db path = content_of (file_at db path)

abbrev pub regular_file : String → List ℕ → File
regular_file path content = record { path = path; kind = regular; content = content }

-- Write a file, whole.
abbrev pub write_file : String → List ℕ → Db → Db
write_file path content db = record db {
  files = regular_file path content ∷ delete_where (has_path path) db.files;
}

abbrev pub unlink : String → Db → Db
unlink path db = record db { files = delete_where (has_path path) db.files }

-- `open("ab").write(content)`
abbrev pub append_file : String → List ℕ → Db → Db
append_file path content db = write_file path (content_at db path ++ content) db

-- `part.replace(target)`
abbrev pub move_file : String → String → Db → Db
move_file source target db = write_file target (content_at db source) (unlink source db)

find_other :
    (p q : String) (fs : List File)
    → (p == q) ≡ false
    → find (has_path q) (delete_where (has_path p) fs) ≡ find (has_path q) fs
find_other p q [] h = refl
find_other p q (f ∷ fs) h =
    ground (arith, eq_iff f.path p, eq_iff f.path q, eq_iff p q, find_other p q fs h)

pub file_at-write_file :
    (path : String) (content : List ℕ) (db : Db)
    → file_at (write_file path content db) path ≡ some (regular_file path content)
unfolding file_at
file_at-write_file path content db = rw (beq_self path)

pub file_at-write_other :
    (p q : String) (content : List ℕ) (db : Db)
    → (p == q) ≡ false
    → file_at (write_file p content db) q ≡ file_at db q
unfolding file_at
file_at-write_other p q content db h = rw h (find_other p q db.files h)

pub file_at-unlink_other :
    (p q : String) (db : Db) → (p == q) ≡ false → file_at (unlink p db) q ≡ file_at db q
unfolding file_at
file_at-unlink_other p q db h = find_other p q db.files h

-- ===== src/ArtifactStore/Paths.antt =====
-- The paths of artifacts stay inside the directories that are made for them.
use cloudlink.Prelude.{
  Bool, true, false, ◌&&◌, ◌||◌, not, String, List, [], ◌∷◌, ◌≡◌, subst, arith, if◌then◌else◌, ◌==◌,
  string_eq, any, select, All, All-map, All-both, All-select, All-select_meets, strip, non_empty,
}
use cloudlink.Prelude.Paths.{
  path_parts, words, words-lacks, lacks, last_part, is_absolute, has_backslash,
}
use cloudlink.Errors.{ok, err, artifact_conflict}
use cloudlink.ArtifactStore.{safe_relative_path, unsafe_path}

-- A part that names an entry of a directory, and not the directory or the one above it.
pub record IsEntry (w : String) : Type 0 where
  pub single : lacks b'/' w ≡ true
  pub named : non_empty w ≡ true
  pub no_dot : (w == ".") ≡ false
  pub no_parent : (w == "..") ≡ false

no_parents :
    (ws : List String) → any (λ w. w == "..") ws ≡ false → All (λ w. (w == "..") ≡ false) ws
no_parents [] h = tt
no_parents (w ∷ ws) h = (ground arith, no_parents ws (ground arith))

parts-IsEntry :
    (value : String)
    → any (λ w. w == "..") (path_parts value) ≡ false
    → All IsEntry (path_parts value)
unfolding path_parts
parts-IsEntry value h =
    let p : String → Bool = λ w. non_empty w && not (w == ".") in
    let ws : List String = select p (words b'/' value) in
    All-map _ _ ws
      (λ w k. record {
        single = k.0;
        named = ground arith;
        no_dot = ground arith;
        no_parent = k.1.1;
      })
      (All-both _ _ ws (All-select _ p (words b'/' value) (words-lacks b'/' value))
        (All-both _ _ ws (All-select_meets p (words b'/' value)) (no_parents ws h)))

last_part-All :
    (P : String → Type 0) (ws : List String)
    → non_empty (last_part ws) ≡ true
    → All P ws
    → P (last_part ws)
last_part-All P [] h k = absurd (cc)
last_part-All P (w ∷ []) h k = k.0
last_part-All P (w ∷ v ∷ ws) h k = last_part-All P (v ∷ ws) h k.1

-- An accepted path has only parts that name entries below the directory that it starts from, and its last part, which names
-- the stored file, is one of them.
pub safe_relative_path-IsEntry :
    (value : String) (parts : List String)
    → safe_relative_path value ≡ ok parts
    → (is_absolute value ≡ false) × All IsEntry parts × IsEntry (last_part parts)
unfolding safe_relative_path
safe_relative_path-IsEntry value parts h =
    let checked =
      accepted (non_empty (strip value)) (is_absolute value)
        (any (λ w. w == "..") (path_parts value)) (has_backslash value)
        (non_empty (last_part (path_parts value))) h in
    let all_entries = parts-IsEntry value checked.1 in
    let ends = last_part-All IsEntry (path_parts value) checked.2 all_entries in
    (
      checked.0,
      subst (All IsEntry) checked.3 all_entries,
      subst (λ ws. IsEntry (last_part ws)) checked.3 ends,
    )
  where
    accepted :
        (some_text absolute up slash named : Bool)
        → (if not some_text
            then err (artifact_conflict unsafe_path)
            else if absolute || up || slash
            then err (artifact_conflict unsafe_path)
            else if not named
            then err (artifact_conflict unsafe_path)
            else ok (path_parts value))
          ≡ ok parts
        → (absolute ≡ false) × (up ≡ false) × (named ≡ true) × (path_parts value ≡ parts)
    accepted some_text absolute up slash named k = ground arith

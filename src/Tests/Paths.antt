-- ===== src/Tests/Paths.antt =====
-- Paths: runs, and the theorems at concrete paths.
use mobfs.Base.{◌≡◌, refl, true, false, ◌||◌, List, [], ◌∷◌, ◌++◌, all, any, if◌then◌else◌}
use mobfs.Base.Str.{Str, codes, str_eq, starts_with, contains, contains_char, split, rsplit_once}
use mobfs.Error.{ok, err, invalid_path}
use mobfs.Paths.{
  normal, root_dir, FilePath, split_parent, join_rel, is_sidecar, should_ignore_part,
  should_ignore_rel, strip_star, is_daemon_temp, components, push_components, path_starts_with,
  safe_join,
}
use mobfs.Paths.Parent.{split_parent-join_rel}
use mobfs.Paths.Ignore.{should_ignore_rel-join_rel}
use mobfs.Paths.Join.{safe_join_lem, safe_join_confined, is_normal, walk}

abbrev ignore : List Str
ignore = codes ".git" ∷ (codes "target" ∷ (codes "._*" ∷ []))

ignores_configured_segments :
    (should_ignore_rel ignore (codes ".git/config") ≡ true)
    × (should_ignore_rel ignore (codes "app/target/debug") ≡ true)
    × (should_ignore_rel ignore (codes "._scratch") ≡ true)
    × (should_ignore_rel ignore (codes "src/main.rs") ≡ false)
unfolding should_ignore_rel should_ignore_part strip_star split any str_eq starts_with
ignores_configured_segments = (refl, refl, refl, refl)

sidecars_cover_apple_metadata_files :
    (is_sidecar (codes "media/._clip.mov") ≡ true)
    × (is_sidecar (codes "a/b/.DS_Store") ≡ true)
    × (is_sidecar (codes "media/_clip.mov") ≡ false)
unfolding is_sidecar split_parent rsplit_once str_eq starts_with
sidecars_cover_apple_metadata_files = (refl, refl, refl)

daemon_temp : is_daemon_temp (codes "a/.x.mobfs-tmp-7") ≡ true
unfolding is_daemon_temp split_parent rsplit_once contains starts_with
daemon_temp = refl

abbrev root : FilePath
root = root_dir ∷ (normal (codes "srv") ∷ [])

safe_join_accepts :
    safe_join root (codes "a/./b") ≡ ok (root ++ (normal (codes "a") ∷ (normal (codes "b") ∷ [])))
unfolding safe_join components push_components path_starts_with split str_eq
safe_join_accepts = refl

safe_join_rejects_path_traversal :
    (safe_join root (codes "../x") ≡ err (invalid_path (codes "../x")))
    × (safe_join root (codes "/etc") ≡ err (invalid_path (codes "/etc")))
unfolding safe_join components push_components path_starts_with split str_eq
safe_join_rejects_path_traversal = (refl, refl)

split_parent-join_rel_instance :
    split_parent (join_rel (codes "a/b") (codes "c.txt")) ≡ (codes "a/b", codes "c.txt")
unfolding contains_char
split_parent-join_rel_instance = split_parent-join_rel (codes "a/b") (codes "c.txt") refl

should_ignore_rel-join_rel_instance :
    should_ignore_rel ignore (join_rel (codes "app/target") (codes "debug"))
    ≡ (should_ignore_rel ignore (codes "app/target") || should_ignore_part (codes "debug") ignore)
unfolding contains_char
should_ignore_rel-join_rel_instance =
    should_ignore_rel-join_rel ignore (codes "app/target") (codes "debug") (λ e. cc) refl

safe_join_lem_instance : safe_join root (codes "../x") ≡ (
    if all is_normal (components (codes "../x"))
    then ok (root ++ components (codes "../x"))
    else err (invalid_path (codes "../x")))
safe_join_lem_instance = safe_join_lem root (codes "../x")

safe_join_confined_example :
    (names : List Str) × (walk [] (root ++ (normal (codes "a") ∷ (normal (codes "b") ∷ [])))
      ≡ names ++ walk [] root)
safe_join_confined_example = safe_join_confined [] root (codes "a/./b") safe_join_accepts

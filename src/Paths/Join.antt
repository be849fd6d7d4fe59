-- ===== src/Paths/Join.antt =====
-- safe_join never leaves its root.
use mobfs.Base.{
  ◌≡◌, refl, ◌∙◌, ap, sym, Bool, true, false, List, [], ◌∷◌, ◌++◌, append-nil, append_assoc, arith,
  all, inl, inr, Bool-cases, if◌then◌else◌,
}
use mathlib.Core.List.{tail}
use mobfs.Base.Str.{Str, str_eq_iff}
use mobfs.Error.{ok, err, invalid_path}
use mobfs.Paths.{
  Component, normal, root_dir, cur_dir, parent_dir, FilePath, components, push_components,
  component_eq, path_starts_with, safe_join, under_root,
}

abbrev pub is_normal : Component → Bool
is_normal (normal _) = true
is_normal _ = false

component_eq_refl : (c : Component) → component_eq c c ≡ true
component_eq_refl root_dir = refl
component_eq_refl cur_dir = refl
component_eq_refl parent_dir = refl
component_eq_refl (normal a) = (str_eq_iff a a).1 refl

pub path_starts_with-append : (root rest : FilePath) → path_starts_with (root ++ rest) root ≡ true
unfolding path_starts_with
path_starts_with-append [] [] = refl
path_starts_with-append [] (d ∷ rest) = refl
path_starts_with-append (c ∷ root) rest =
    rw (component_eq_refl c) (path_starts_with-append root rest)

push_components_lem :
    (rel : Str) (path cs : FilePath)
    → push_components rel path cs
      ≡ (if all is_normal cs then ok (path ++ cs) else err (invalid_path rel))
unfolding push_components all
push_components_lem rel path [] = rw append-nil
push_components_lem rel path (normal s ∷ cs) =
    rw (push_components_lem rel (path ++ (normal s ∷ [])) cs, append_assoc)
push_components_lem rel path (root_dir ∷ cs) = refl
push_components_lem rel path (cur_dir ∷ cs) = refl
push_components_lem rel path (parent_dir ∷ cs) = refl

-- A relative path is accepted exactly when all its components are plain names, and the result is
-- the root with those names behind it; any other is refused as an invalid path.
pub safe_join_lem :
    (root : FilePath) (rel : Str)
    → safe_join root rel ≡ (
        if all is_normal (components rel)
        then ok (root ++ components rel)
        else err (invalid_path rel))
unfolding safe_join
safe_join_lem root rel =
    rw (push_components_lem rel root (components rel))
      (checked (all is_normal (components rel)) (components rel))
  where
    checked :
        (b : Bool) (cs : FilePath)
        → under_root root rel (if b then ok (root ++ cs) else err (invalid_path rel))
          ≡ (if b then ok (root ++ cs) else err (invalid_path rel))
    checked true cs = rw (path_starts_with-append root cs)
    checked false cs = refl

-- Where a path leads from a directory, each `..` taking one step up: names from the file system's
-- root, innermost first.
unfoldable pub walk : List Str → FilePath → List Str
walk at [] = at
walk at (normal s ∷ cs) = walk (s ∷ at) cs
walk at (parent_dir ∷ cs) = walk (tail at) cs
walk at (cur_dir ∷ cs) = walk at cs
walk at (root_dir ∷ cs) = walk [] cs

walk-append : (at : List Str) (p q : FilePath) → walk at (p ++ q) ≡ walk (walk at p) q
unfolding walk
walk-append at [] q = refl
walk-append at (normal s ∷ p) q = walk-append (s ∷ at) p q
walk-append at (parent_dir ∷ p) q = walk-append (tail at) p q
walk-append at (cur_dir ∷ p) q = walk-append at p q
walk-append at (root_dir ∷ p) q = walk-append [] p q

walk_down :
    (at : List Str) (cs : FilePath)
    → all is_normal cs ≡ true
    → (names : List Str) × (walk at cs ≡ names ++ at)
unfolding walk all
walk_down at [] h = ([], refl)
walk_down at (normal s ∷ cs) h =
    let (names, e) = walk_down (s ∷ at) cs h in
    (names ++ (s ∷ []), e ∙ sym (append_assoc names (s ∷ []) at))
walk_down at (root_dir ∷ cs) h = absurd (cc)
walk_down at (cur_dir ∷ cs) h = absurd (cc)
walk_down at (parent_dir ∷ cs) h = absurd (cc)

-- An accepted path, read component by component from any directory with each `..` one step up and no
-- symbolic link followed, ends in the directory where its root ends, or below it.
pub safe_join_confined :
    (at : List Str) (root : FilePath) (rel : Str) {path : FilePath}
    → safe_join root rel ≡ ok path
    → (names : List Str) × (walk at path ≡ names ++ walk at root)
safe_join_confined at root rel {path} h = elim (Bool-cases (all is_normal (components rel))) [
  | inl n ↦
      let (names, e) = walk_down (walk at root) (components rel) n in
      (names, ap (walk at) (accepted n) ∙ (walk-append at root (components rel) ∙ e))
  | inr n ↦ absurd (cc (safe_join_lem root rel, refused n))
]
  where
    accepted : all is_normal (components rel) ≡ true → path ≡ root ++ components rel
    accepted n = ground (arith, safe_join_lem root rel)

    refused : all is_normal (components rel) ≡ false → safe_join root rel ≡ err (invalid_path rel)
    refused n = ground (arith, safe_join_lem root rel)

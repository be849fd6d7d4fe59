-- ===== src/Paths/Ignore.antt =====
-- Ignore patterns: what lies below an ignored directory is ignored.
use mobfs.Base.{◌≡◌, refl, ◌≢◌, Bool, false, ◌||◌, List, [], ◌∷◌, ◌++◌, arith, any}
use mobfs.Base.Str.{Str, contains_char, split-append, split_whole}
use mobfs.Paths.{slash, join_rel, should_ignore_part, should_ignore_rel}

any-append :
    {A : Type 0} (p : A → Bool) (xs ys : List A) → any p (xs ++ ys) ≡ (any p xs || any p ys)
unfolding any
any-append p [] ys = refl
any-append p (x ∷ xs) ys = ground (arith, any-append p xs ys)

-- A child is ignored exactly when its directory is or its own name is.
pub should_ignore_rel-join_rel :
    (ignore : List Str) (parent name : Str)
    → parent ≢ []
    → contains_char slash name ≡ false
    → should_ignore_rel ignore (join_rel parent name)
      ≡ (should_ignore_rel ignore parent || should_ignore_part name ignore)
unfolding should_ignore_rel join_rel
should_ignore_rel-join_rel ignore [] name h k = absurd (h refl)
should_ignore_rel-join_rel ignore (c ∷ parent) name h k =
    rw (split-append slash (c ∷ parent) name, any-append, split_whole slash name k)
      (unfold any in ground arith)

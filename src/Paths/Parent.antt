-- ===== src/Paths/Parent.antt =====
-- split_parent and join_rel undo one another.
use mobfs.Base.{◌≡◌, false, [], ◌∷◌}
use mobfs.Base.Str.{Str, contains_char, rsplit_once-none, rsplit_once_lem}
use mobfs.Paths.{slash, split_parent, join_rel}

-- A name with no slash, joined to any parent, is split off again.
pub split_parent-join_rel :
    (parent name : Str)
    → contains_char slash name ≡ false
    → split_parent (join_rel parent name) ≡ (parent, name)
unfolding split_parent join_rel
split_parent-join_rel [] name h = rw (rsplit_once-none slash name h)
split_parent-join_rel (c ∷ parent) name h = rw (rsplit_once_lem slash (c ∷ parent) name h)

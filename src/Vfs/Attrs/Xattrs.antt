-- ===== src/Vfs/Attrs/Xattrs.antt =====
-- What `getxattr` of src/vfs.rs finds after `setxattr` and `removexattr`.
use mobfs.Base.{
  ℕ, ◌≡◌, refl, ap, ◌∙◌, Bool-cases, inl, inr, ◌&&◌, not, Option, none, some, [], if◌then◌else◌,
  arith,
}
use mobfs.Base.Str.{Str, str_eq, str_eq_iff}
use mobfs.Base.Order.{list_ord, nat_ord, list_cmp_eq}
use mobfs.Base.Map.{Map, get, insert, contains_key, get-insert, get-insert_self}
use mobfs.Protocol.{Bytes}
use mobfs.Vfs.Errno.{VfsResult, ok, err, no_xattr}
use mobfs.Vfs.Inodes as Inodes
use mobfs.Vfs.State.{Vfs, ok_or}
use mobfs.Vfs.Names.{path_of, or_else}
use mobfs.Vfs.Attrs.{has_bit, place_value, attrs_of, setxattr, getxattr}

-- an attribute as the answer of `getxattr`
abbrev answer : Option Bytes → VfsResult Bytes
answer none = err no_xattr
answer (some value) = ok value

answered : {W : Type 0} (o : Option Bytes) (s : Vfs W) → (ok_or no_xattr o s).0 ≡ answer o
answered none s = refl
answered (some value) s = refl

module _ {W : Type 0} (i : ℕ) (path : Str) (s : Vfs W)
    (known : Inodes.path s.inodes i ≡ some path) where
  getxattr_lem : (name : Str) → (getxattr i name s).0 ≡ answer (get (attrs_of s path) name)
  unfolding getxattr path_of
  getxattr_lem name = rw known (answered (get (attrs_of s path) name) s)

  -- the state after a `setxattr` that succeeds
  setxattr_ok :
      (name : Str) (value : Bytes) (flags : ℕ)
      → (setxattr i name value flags 0 s).0 ≡ ok tt
      → (attrs_of (setxattr i name value flags 0 s).1 path ≡ insert (attrs_of s path) name value)
        × ((setxattr i name value flags 0 s).1.inodes ≡ s.inodes)
  unfolding setxattr path_of place_value
  setxattr_ok name value flags h =
      let attrs = attrs_of s path in
      let exists = contains_key attrs name in
      let g = rw known at h in
      rw known (elim (Bool-cases (has_bit flags 1 && exists)) [
        | inl e ↦ let f = rw e at g in cc
        | inr e ↦ elim (Bool-cases (has_bit flags 2 && not exists)) [
          | inl e' ↦ let f = rw (e, e') at g in cc
          | inr e' ↦
              rw (e, e')
                (
                  ap (λ (o : Option (Map Str Bytes)). or_else [] o)
                      (get-insert_self (insert s.xattrs path attrs) path (insert attrs name value)),
                  refl,
                )
        ]
      ])

-- After an attribute has been set, at its start as all but resource forks are, it is read back as
-- it was set, and every other attribute of the file is as before.
pub getxattr-setxattr :
    {W : Type 0} (i : ℕ) (path name other : Str) (value : Bytes) (flags : ℕ) (s : Vfs W)
    → Inodes.path s.inodes i ≡ some path
    → (setxattr i name value flags 0 s).0 ≡ ok tt
    → (getxattr i other (setxattr i name value flags 0 s).1).0
      ≡ (if str_eq name other then ok value else (getxattr i other s).0)
getxattr-setxattr i path name other value flags s known h =
    let t = (setxattr i name value flags 0 s).1 in
    let done = setxattr_ok i path s known name value flags h in
    getxattr_lem i path t (ap (λ n. Inodes.path n i) done.1 ∙ known) other
    ∙ ap (λ m. answer (get m other)) done.0
    ∙ ap answer (get-insert (attrs_of s path) name value other)
    ∙ ground
        (arith, getxattr_lem i path s known other, list_cmp_eq name other, str_eq_iff name other)

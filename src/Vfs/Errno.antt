-- ===== src/Vfs/Errno.antt =====
-- src/vfs.rs: the errors of the mounted file system, and how errors of the daemon become them.
use mobfs.Base.{List, [], ◌∷◌, if◌then◌else◌}
use mobfs.Base.Str.{Str, codes, contains}
use mobfs.Error.{MobfsError, server}

-- the constants of `Errno`
pub data Errno : Type 0 where
  enoent eio einval eacces eexist enotempty eisdir enotdir : Errno
  enospc erofs enametoolong estale no_xattr : Errno

pub data VfsResult (A : Type 0) : Type 0 where
  ok : A → VfsResult A
  err : Errno → VfsResult A

-- the texts that are looked for in a message, and their errors
abbrev pub known : List (Str × Errno)
known =
    (codes "No such file or directory", enoent)
    ∷ ((codes "Permission denied", eacces)
        ∷ ((codes "not allowed by mobfsd", eacces)
            ∷ ((codes "File exists", eexist)
                ∷ ((codes "Directory not empty", enotempty)
                    ∷ ((codes "Is a directory", eisdir)
                        ∷ ((codes "Not a directory", enotdir)
                            ∷ ((codes "No space left", enospc)
                                ∷ ((codes "Read-only file system", erofs)
                                    ∷ ((codes "File name too long", enametoolong)
                                        ∷ ((codes "invalid path", einval) ∷ []))))))))))

unfoldable pub find_errno : List (Str × Errno) → Str → Errno
find_errno [] message = eio
find_errno ((needle, errno) ∷ rest) message =
    let later = find_errno rest message in if contains message needle then errno else later

unfoldable pub errno_for_server_error : Str → Errno
unfolding find_errno
errno_for_server_error message = find_errno known message

unfoldable pub errno_for : MobfsError → Errno
unfolding errno_for_server_error
errno_for (server message) = errno_for_server_error message
errno_for _ = eio

-- ===== src/Disk.antt =====
-- The disk of the daemon as its code uses it: the calls of the standard library on paths, each a
-- step on a state, with its errors. The state also holds the change feeds.
use mobfs.Base.{ℕ, Bool, Option, List}
use mobfs.Base.Str.{Str}
use mobfs.Base.Int.{ℤ}
use mobfs.Error.{Done, Result, ok, err, MobfsError}
use mobfs.Paths.{FilePath}
use mobfs.Protocol.{Bytes, ChangeKind}

-- a step that may fail, which does not undo what it has done before
abbrev pub Io : Type 0 → Type 0 → Type 0
Io D A = D → Result A × D

infixl 5 ◌>>=◌ ◌>>◌
abbrev pub and_then : {D A B : Type 0} → (A → Io D B) → Result A × D → Result B × D
and_then f (ok a, d) = f a d
and_then f (err e, d) = (err e, d)

abbrev pub ◌>>=◌ : {D A B : Type 0} → Io D A → (A → Io D B) → Io D B
m >>= f = λ d. and_then f (m d)

abbrev pub ◌>>◌ : {D A B : Type 0} → Io D A → Io D B → Io D B
m >> k = m >>= λ _. k

abbrev pub pure : {D A : Type 0} → A → Io D A
pure a = λ d. (ok a, d)

abbrev pub fail : {D A : Type 0} → MobfsError → Io D A
fail e = λ d. (err e, d)

-- `let _ = ...`: what fails is ignored
abbrev pub ignored : {D A : Type 0} → Result A × D → Done × D
ignored (r, d) = (ok tt, d)

abbrev pub ignore_error : {D A : Type 0} → Io D A → Io D Unit
ignore_error m = λ d. ignored (m d)

abbrev caught : {D A : Type 0} → Result A × D → Result (Result A) × D
caught (r, d) = (ok r, d)

-- the result of a call as a value
abbrev pub attempt : {D A : Type 0} → Io D A → Io D (Result A)
attempt m = λ d. caught (m d)

abbrev pub lift : {D A : Type 0} → Result A → Io D A
lift r = λ d. (r, d)

pub data FileType : Type 0 where
  is_symlink is_dir is_file is_other : FileType

pub record Metadata : Type 0 where
  pub file_type : FileType
  pub len : ℕ
  pub modified : ℤ
  pub mode : ℕ

-- `file_metadata` follows a link, `symlink_metadata` does not. Where a name says `at` or `from`, the
-- call opens the file, seeks and transfers. `write_at` makes
-- the file if it is missing, `overwrite_at` does not. A counter numbers the marks of operations.
pub record Disk (D : Type 0) : Type 0 where
  pub canonicalize : Str → D → Result FilePath
  pub display : FilePath → Str
  pub digest : FilePath → Str
  pub temp_dir : FilePath
  pub process_id : Str
  pub exists : FilePath → D → Bool
  pub symlink_metadata : FilePath → D → Result Metadata
  pub file_metadata : FilePath → D → Result Metadata
  pub read_link : FilePath → D → Result Str
  pub read_dir : FilePath → Io D (List Str)
  pub read : FilePath → Io D Bytes
  pub read_from : FilePath → ℕ → ℕ → Io D Bytes
  pub create_dir_all : FilePath → Io D Unit
  pub create : FilePath → Bytes → Io D Unit
  pub write_at : FilePath → ℕ → Bytes → Io D Unit
  pub overwrite_at : FilePath → ℕ → Bytes → Io D Unit
  pub set_len : FilePath → ℕ → Io D Unit
  pub sync_all : FilePath → Io D Unit
  pub rename : FilePath → FilePath → Io D Unit
  pub remove_file : FilePath → Io D Unit
  pub remove_dir_all : FilePath → Io D Unit
  pub symlink : Str → FilePath → Io D Unit
  pub set_mode : FilePath → ℕ → Io D Unit
  pub set_mtime : FilePath → ℤ → Io D Unit
  pub sha256 : FilePath → Io D Str
  pub age : FilePath → D → Option ℕ
  pub next_mark : Io D ℕ
  pub record_change : FilePath → ℕ → Str → ChangeKind → Io D Unit

-- ===== src/Error.antt =====
-- src/error.rs: the errors of the program, and `Result` with its `?`.
use mobfs.Base.Str.{Str}

-- The kinds of `std::io::Error` that the program tells apart.
pub data IoKind : Type 0 where
  not_found unexpected_eof permission_denied other_kind : IoKind

-- `io` keeps the kind; the other variants keep their message, or the foreign error's text.
pub data MobfsError : Type 0 where
  io : IoKind → MobfsError
  json watch toml_decode toml_encode walkdir : Str → MobfsError
  invalid_remote invalid_path config remote server : Str → MobfsError

pub data Result {ℓ} (A : Type ℓ) : Type ℓ where
  ok : A → Result A
  err : MobfsError → Result A

infixl 5 ◌>>=◌ ◌>>◌
abbrev pub ◌>>=◌ {ℓ κ} : {A : Type ℓ} {B : Type κ} → Result A → (A → Result B) → Result B
ok a >>= f = f a
err e >>= f = err e

abbrev pub ◌>>◌ {ℓ κ} : {A : Type ℓ} {B : Type κ} → Result A → Result B → Result B
m >> k = m >>= λ _. k

-- Result<()>
abbrev pub Done : Type 0
Done = Result Unit

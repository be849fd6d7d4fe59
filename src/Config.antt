-- ===== src/Config.antt =====
-- src/config.rs: the texts that name a remote side. The home directory of the user, as text, is an
-- argument.
pub mod Remotes
use mobfs.Base.{
  ℕ, Bool, true, false, ◌||◌, Option, none, some, [], ◌∷◌, ◌++◌, ◌==◌, if◌then◌else◌, not,
}
use mobfs.Base.Str.{
  Str, codes, str_eq, starts_with, strip_prefix, on_first, split_once, rsplit_once,
}
use mobfs.Error.{Result, ok, err, invalid_remote, ◌>>=◌}
use mobfs.Paths.{slash}

pub data StorageBackend : Type 0 where
  daemon r2 s3 icloud gdrive : StorageBackend

pub record RemoteTarget : Type 0 where
  pub backend : StorageBackend
  pub host : Str
  pub user : Str
  pub path : Str

abbrev or_later : Option Str → Option (Str × Str) → Option (Str × Str)
or_later none later = later
or_later (some rest) later = some ([], rest)

-- s.split_once(sep) for a text
unfoldable pub split_once_at : Str → Str → Option (Str × Str)
split_once_at sep [] = or_later (strip_prefix [] sep) none
split_once_at sep (c ∷ s) = or_later (strip_prefix (c ∷ s) sep) (on_first c (split_once_at sep s))

abbrev keep_unless_last : ℕ → ℕ → Str → Str
keep_unless_last c d [] = if d == c then [] else d ∷ []
keep_unless_last c d (e ∷ s) = d ∷ (e ∷ s)

-- s.trim_end_matches(c)
unfoldable pub trim_end_matches : ℕ → Str → Str
trim_end_matches c [] = []
trim_end_matches c (d ∷ s) = keep_unless_last c d (trim_end_matches c s)

abbrev scheme_separator : Str
scheme_separator = codes "://"

-- the match on the scheme
unfoldable pub scheme_backend : Str → Result StorageBackend
scheme_backend scheme =
    if str_eq scheme (codes "icloud")
    then ok icloud
    else if str_eq scheme (codes "gdrive") || str_eq scheme (codes "google-drive")
    then ok gdrive
    else if str_eq scheme (codes "r2")
    then ok r2
    else if str_eq scheme (codes "s3")
    then ok s3
    else if str_eq scheme (codes "file")
    then ok icloud
    else err (invalid_remote (codes "unsupported backend scheme: " ++ scheme))

-- `&path[2..]`
abbrev behind_two : Str → Str
behind_two (a ∷ (b ∷ s)) = s
behind_two _ = []

abbrev names_home : Str → Bool
names_home path = str_eq path (codes "/~") || starts_with path (codes "/~/")

abbrev under_home : Str → Option Str → Bool → Str
under_home path (some home) true = home ++ behind_two path
under_home path _ _ = trim_end_matches slash path

unfoldable pub expand_home : Option Str → Str → Str
unfolding trim_end_matches
expand_home home_dir path = under_home path home_dir (names_home path)

abbrev with_slash : Str → Str
with_slash rest = if starts_with rest (slash ∷ []) then rest else slash ∷ rest

abbrev expected_remote : Str
expected_remote = codes "expected [user@]host:/absolute/path or backend:///absolute/path"

abbrev is_empty : Str → Bool
is_empty [] = true
is_empty (c ∷ s) = false

-- the user, when both sides of the last `@` hold something, and the host
abbrev user_and_host : Str → Option (Str × Str) → Str × Str
user_and_host host_part (some (u ∷ user, h ∷ host)) = (u ∷ user, h ∷ host)
user_and_host host_part _ = ([], host_part)

abbrev daemon_target : Str × Str → Str → RemoteTarget
daemon_target (user, host) path = record {
  backend = daemon;
  host = host;
  user = user;
  path = trim_end_matches slash path;
}

abbrev parse_host : Option (Str × Str) → Result RemoteTarget
parse_host none = err (invalid_remote expected_remote)
parse_host (some (host_part, path)) =
    if is_empty host_part || (is_empty path || not (starts_with path (slash ∷ [])))
    then err (invalid_remote expected_remote)
    else ok (daemon_target (user_and_host host_part (rsplit_once b'@' host_part)) path)

abbrev parse_scheme : Option Str → Str → Option (Str × Str) → Result RemoteTarget
parse_scheme home_dir input none = parse_host (split_once b':' input)
parse_scheme home_dir input (some (scheme, rest)) = do
  backend ← scheme_backend scheme
  ok (record {
    backend = backend;
    host = scheme;
    user = [];
    path = expand_home home_dir (with_slash rest);
  })

unfoldable pub parse_remote : Option Str → Str → Result RemoteTarget
unfolding split_once_at scheme_backend expand_home trim_end_matches
parse_remote home_dir input = parse_scheme home_dir input (split_once_at scheme_separator input)

-- ===== src/Tests/Config.antt =====
-- Addresses of remote sides.
use mobfs.Base.{◌≡◌, refl, none, some, [], ◌++◌}
use mobfs.Base.Str.{
  codes, str_eq, starts_with, strip_prefix, contains, contains_char, split_once, rsplit_once,
}
use mobfs.Error.{ok, err, invalid_remote}
use mobfs.Config.{
  daemon, gdrive, split_once_at, trim_end_matches, scheme_backend, expand_home, parse_remote,
}
use mobfs.Config.Remotes.{parse_remote_daemon}

parse_remote_daemon_example :
    parse_remote none ((codes "a" ++ codes "@b") ++ codes ":/x/")
    ≡ ok (record { backend = daemon; host = codes "b"; user = codes "a"; path = codes "/x" })
unfolding contains contains_char starts_with trim_end_matches
parse_remote_daemon_example =
    parse_remote_daemon none (codes "a") (codes "b") (codes "/x/") (λ q. cc) (λ q. cc) refl refl
      refl refl

-- the root of the host is the empty path
root_is_empty :
    parse_remote none (codes "b:/")
    ≡ ok (record { backend = daemon; host = codes "b"; user = []; path = [] })
unfolding parse_remote split_once_at strip_prefix split_once rsplit_once starts_with
    trim_end_matches
root_is_empty = refl

-- `://` in a path makes the front of the address a scheme
scheme_in_path :
    parse_remote none (codes "b:/a://c")
    ≡ err (invalid_remote (codes "unsupported backend scheme: b:/a"))
unfolding parse_remote split_once_at strip_prefix scheme_backend str_eq
scheme_in_path = refl

home_of_drive :
    parse_remote (some (codes "/h")) (codes "gdrive://~/d")
    ≡ ok (record { backend = gdrive; host = codes "gdrive"; user = []; path = codes "/h/d" })
unfolding parse_remote split_once_at strip_prefix scheme_backend str_eq starts_with expand_home
    trim_end_matches
home_of_drive = refl

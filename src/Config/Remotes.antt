-- ===== src/Config/Remotes.antt =====
-- What parse_remote of src/config.rs makes of the text of a daemon's address.
use mobfs.Base.{◌≡◌, refl, true, false, Option, none, [], ◌∷◌, ◌++◌, ◌∙◌, arith, ◌≢◌}
use mobfs.Base.Str.{
  Str, starts_with, strip_prefix, contains, contains_char, split_once_lem, rsplit_once_lem,
}
use mobfs.Error.{ok}
use mobfs.Paths.{slash}
use mobfs.Config.{daemon, split_once_at, trim_end_matches, parse_remote, scheme_separator}

strip_prefix-none : (s p : Str) → starts_with s p ≡ false → strip_prefix s p ≡ none
unfolding starts_with strip_prefix
strip_prefix-none s [] h = cc
strip_prefix-none [] (d ∷ p) h = refl
strip_prefix-none (c ∷ s) (d ∷ p) h = ground (arith, strip_prefix-none s p)

-- A text that does not contain the separator is not split.
pub split_once_at-none : (sep s : Str) → contains s sep ≡ false → split_once_at sep s ≡ none
unfolding contains split_once_at
split_once_at-none sep [] h = rw (strip_prefix-none [] sep h)
split_once_at-none sep (c ∷ s) h =
    rw (strip_prefix-none (c ∷ s) sep (ground arith), split_once_at-none sep s (ground arith))

-- A text before which no colon stands contains what the text behind it contains.
contains-scheme_separator :
    (a b : Str)
    → contains_char b':' a ≡ false
    → contains (a ++ b) scheme_separator ≡ contains b scheme_separator
unfolding contains contains_char starts_with
contains-scheme_separator [] b h = refl
contains-scheme_separator (c ∷ a) b h = ground (arith, contains-scheme_separator a b)

starts_with-nil : starts_with [] (slash ∷ []) ≡ false
unfolding starts_with
starts_with-nil = refl

-- An address `user@host:path` names the daemon at that host for that user, with the path without the
-- slashes at its end: when neither of the names before the colon is empty or has a colon, the host
-- has no `@`, and the path starts with a slash, does not start with two and has no `://` in it. The
-- user may have an `@`.
pub parse_remote_daemon :
    (home_dir : Option Str) (user host path : Str)
    → user ≢ []
    → host ≢ []
    → contains_char b':' (user ++ (b'@' ∷ host)) ≡ false
    → contains_char b'@' host ≡ false
    → starts_with path (slash ∷ []) ≡ true
    → contains (b':' ∷ path) scheme_separator ≡ false
    → parse_remote home_dir ((user ++ (b'@' ∷ host)) ++ (b':' ∷ path))
      ≡ ok (record {
        backend = daemon;
        host = host;
        user = user;
        path = trim_end_matches slash path;
      })
parse_remote_daemon home_dir [] host path u h colons ats absolute plain = absurd (u refl)
parse_remote_daemon home_dir (u ∷ user) [] path _ h colons ats absolute plain = absurd (h refl)
parse_remote_daemon home_dir (u ∷ user) (h ∷ host) [] _ _ colons ats absolute plain =
    cc (absolute, starts_with-nil)
parse_remote_daemon home_dir (u ∷ user) (h ∷ host) (p ∷ path) _ _ colons ats absolute plain =
    let front = (u ∷ user) ++ (b'@' ∷ (h ∷ host)) in
    let whole =
      split_once_at-none scheme_separator (front ++ (b':' ∷ (p ∷ path)))
        (contains-scheme_separator front (b':' ∷ (p ∷ path)) colons ∙ plain) in
    unfold parse_remote in
    rw
      (
        whole,
        split_once_lem b':' front (p ∷ path) colons,
        absolute,
        rsplit_once_lem b'@' (u ∷ user) (h ∷ host) ats,
      )
      refl

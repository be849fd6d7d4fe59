-- ===== src/Remote.antt =====
-- src/remote.rs: how the client repeats what fails.
pub mod Retry
pub mod Wire
pub mod Client
pub mod Transfer
use mobfs.Base.{ℕ, zero, suc, ◌+◌, ◌*◌, ◌^◌, min, Bool, List, [], ◌∷◌}
use mobfs.Error.{MobfsError, Result, ok, err, io, server, unexpected_eof}
use mobfs.Disk.{Io, ◌>>=◌, ◌>>◌, and_then}

-- backoff, in milliseconds
unfoldable pub backoff : ℕ → ℕ
backoff attempt = 250 * 2 ^ min attempt 5

-- `handle` treats the error of a step
abbrev pub on_error : {W A : Type 0} → (MobfsError → Io W A) → Result A × W → Result A × W
on_error handle (ok a, w) = (ok a, w)
on_error handle (err e, w) = handle e w

-- with_backoff, with the retries that are left
unfoldable pub with_backoff : {W A : Type 0} → ℕ → Io W A → Io W A
with_backoff zero f = f
with_backoff (suc left) f = let later = with_backoff left f in λ w. on_error (λ e. later) (f w)

abbrev unless_server : {W A : Type 0} → Io W A → MobfsError → Io W A
unless_server retry (server message) = λ w. (err (server message), w)
unless_server retry e = retry

-- RemoteClient::op, with the retries that are left: what the server itself refuses is not repeated
unfoldable pub op : {W A : Type 0} → ℕ → Io W Unit → Io W A → Io W A
op zero reconnect action = action
op (suc left) reconnect action =
    let later = op left reconnect action in
    λ w. on_error (unless_server (reconnect >> later)) (action w)

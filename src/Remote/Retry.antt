-- ===== src/Remote/Retry.antt =====
-- src/remote.rs and src/daemon.rs: an operation that the client repeats over a bad connection.
use mobfs.Base.{ℕ, zero, suc, ◌≡◌, ◌⊎◌, inl, inr, refl, List, [], ◌∷◌, some}
use mobfs.Base.Str.{Str}
use mobfs.Error.{Result, ok, err, io, server, unexpected_eof}
use mobfs.Paths.{FilePath}
use mobfs.Protocol.{Response}
use mobfs.Disk.{Io, Disk, pure}
use mobfs.Daemon.{RootPolicy, check, once}
use mobfs.Daemon.Once.{ExistsWhenCreated, once_again}
use mobfs.Remote.{op}

-- What the connection does to one request: it is lost on the way, it is answered, or it is done and
-- the answer is lost.
pub data Fate : Type 0 where
  lost answered answer_lost : Fate

-- done at most once, and once if there is an answer
abbrev pub DoneOnce : {D A : Type 0} → D → D → Result A × (List Fate × D) → Type 0
DoneOnce d d' (err e, (fates, x)) = (x ≡ d) ⊎ (x ≡ d')
DoneOnce d d' (ok a, (fates, x)) = x ≡ d'

-- a refusal comes as the server's error
abbrev pub answer : {A : Type 0} → Result A → Result A
answer (ok a) = ok a
answer (err e) = err (server [])

module _ {D A : Type 0} (m : Io D A) where
  abbrev broken : Result A
  broken = err (io unexpected_eof)

  abbrev pub send : Io (List Fate × D) A
  send ([], d) = (broken, ([], d))
  send (lost ∷ fates, d) = (broken, (fates, d))
  send (answered ∷ fates, d) = (answer (m d).0, (fates, (m d).1))
  send (answer_lost ∷ fates, d) = (broken, (fates, (m d).1))

  abbrev pub run_op : ℕ → List Fate → D → Result A × (List Fate × D)
  run_op left fates d = op left (pure tt) send (fates, d)

  -- a step that succeeds, and changes nothing when it is repeated
  module _ (d d' : D) (v u : A) (first : m d ≡ (ok v, d')) (again : m d' ≡ (ok u, d')) where
    stays : (left : ℕ) (fates : List Fate) → (run_op left fates d').1.1 ≡ d'
    unfolding op
    stays zero [] = refl
    stays zero (lost ∷ fates) = refl
    stays zero (answered ∷ fates) = rw again
    stays zero (answer_lost ∷ fates) = rw again
    stays (suc left) [] = stays left []
    stays (suc left) (lost ∷ fates) = stays left fates
    stays (suc left) (answered ∷ fates) = rw again
    stays (suc left) (answer_lost ∷ fates) = rw again (stays left fates)

    done : (p : Result A × (List Fate × D)) → p.1.1 ≡ d' → DoneOnce d d' p
    done (ok a, (fates, x)) h = h
    done (err e, (fates, x)) h = inr h

    pub op-DoneOnce : (left : ℕ) (fates : List Fate) → DoneOnce d d' (run_op left fates d)
    unfolding op
    op-DoneOnce zero [] = inl refl
    op-DoneOnce zero (lost ∷ fates) = inl refl
    op-DoneOnce zero (answered ∷ fates) = rw first refl
    op-DoneOnce zero (answer_lost ∷ fates) = rw first (inr refl)
    op-DoneOnce (suc left) [] = op-DoneOnce left []
    op-DoneOnce (suc left) (lost ∷ fates) = op-DoneOnce left fates
    op-DoneOnce (suc left) (answered ∷ fates) = rw first refl
    op-DoneOnce (suc left) (answer_lost ∷ fates) =
        rw first (done (run_op left fates d') (stays left fates))

-- However often the connection fails, an operation with an id that the client repeats is done at
-- most once, and once if the client gets an answer; given that it succeeds when the daemon is first
-- asked, that the root resolves to the same allowed directory throughout, that a file that was
-- created exists, and that the client can reconnect.
pub once-DoneOnce :
    {D : Type 0} (disk : Disk D) (policy : RootPolicy) (root op_id : Str) (r : FilePath)
    (action : Io D Response) (d : D) {d' : D} {value : Response}
    → ((x : D) → check disk policy root x ≡ ok r)
    → ExistsWhenCreated disk
    → once disk policy root (some op_id) action d ≡ (ok value, d')
    → (retries : ℕ) (fates : List Fate)
    → DoneOnce d d' (run_op (once disk policy root (some op_id) action) retries fates d)
once-DoneOnce disk policy root op_id r action d {d'} {value} steady created first =
    op-DoneOnce (once disk policy root (some op_id) action) d d' value Response.ok first
      (once_again disk policy root op_id r steady created action action d first)

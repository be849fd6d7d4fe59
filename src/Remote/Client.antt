-- ===== src/Remote/Client.antt =====
-- src/remote.rs: the requests of RemoteClient. A request with an id takes the next one of the
-- client's counter. The digest of a text, the decimal of a number, and the reconnection are arguments.
use mobfs.Base.{
  ℕ, suc, ◌*◌, min, Bool, not, length, if◌then◌else◌, Option, none, some, List, [], ◌∷◌, ◌++◌, ◌==◌,
  filter,
}
use mobfs.Base.Str.{Str, codes, strip_prefix}
use mobfs.Base.Int.{ℤ}
use mobfs.Error.{Result, ok, remote}
use mobfs.Snapshot.{EntryMeta, Snapshot, dir, kind_eq}
use mobfs.Paths.{slash, should_ignore_part}
use mobfs.Protocol.{Bytes, Request, Response, ChangeEvent, FsStats}
use mobfs.Disk.{Io, ◌>>=◌, pure, fail}
use mobfs.Remote.{op}
use mobfs.Remote.Wire.{Stream, send, send_with_byte_stream, send_expecting_frames}

abbrev stream_write_chunk_size : ℕ
stream_write_chunk_size = 1024 * 1024

tagged : List Str → Str
tagged [] = []
tagged (part ∷ parts) = 0 ∷ (part ++ tagged parts)

unfoldable pub op_id_for : (Str → Str) → Str → List Str → Str
unfolding tagged
op_id_for digest kind parts = digest (kind ++ tagged parts)

-- the client's op_counter beside the world
abbrev pub Counted : Type 0 → Type 0
Counted W = ℕ × W

abbrev keep_counter : {W A : Type 0} → ℕ → Result A × W → Result A × Counted W
keep_counter n (r, w) = (r, (n, w))

abbrev pub lower : {W A : Type 0} → Io W A → Io (Counted W) A
lower m (n, w) = keep_counter n (m w)

abbrev invalid : {W A : Type 0} → Str → Io W A
invalid what = fail (remote (codes "invalid " ++ (what ++ codes " response")))

abbrev pub visible_entries : List Str → List (Str × EntryMeta) → List (Str × EntryMeta)
visible_entries ignore entries = filter (λ entry. not (should_ignore_part entry.0 ignore)) entries

-- path.strip_prefix(root).unwrap_or(path)
abbrev or_path : Str → Option Str → Str
or_path path none = path
or_path path (some rest) = rest

abbrev skip_slashes : Str → Str
skip_slashes [] = []
skip_slashes (c ∷ rel) = if c == slash then skip_slashes rel else c ∷ rel

pub record ChangeBatch : Type 0 where
  pub epoch : ℕ
  pub cursor : ℕ
  pub events : List ChangeEvent
  pub reset : Bool
  pub live : Bool

module _ {W : Type 0} (stream : Stream W) (reconnect : Io W Unit) (retries op_nonce : ℕ)
    (digest : Str → Str) (decimal : ℕ → Str) (root : Str) (ignore : List Str) where
  unfoldable pub next_op_id : Str → Io (Counted W) Str
  next_op_id kind (n, w) =
      (ok (op_id_for digest kind (decimal op_nonce ∷ (decimal (suc n) ∷ []))), (suc n, w))

  -- a request, sent again after a reconnection
  abbrev pub ask : Request → Io (Counted W) Response
  ask request = lower (op retries reconnect (send stream request))

  abbrev tell : Str → (Str → Request) → Io (Counted W) Unit
  tell kind request = do op_id ← next_op_id kind; response ← ask (request op_id); pure tt

  abbrev pub expect : {A : Type 0} → Request → (Response → Io (Counted W) A) → Io (Counted W) A
  expect request read = do response ← ask request; read response

  abbrev as_snapshot : Response → Io (Counted W) Snapshot
  as_snapshot (Response.snapshot snapshot) = pure snapshot
  as_snapshot _ = invalid (codes "snapshot")

  unfoldable pub snapshot : Io (Counted W) Snapshot
  snapshot = expect (Request.snapshot root ignore) as_snapshot

  abbrev as_stat : Response → Io (Counted W) (Option EntryMeta)
  as_stat (Response.stat meta) = pure meta
  as_stat _ = invalid (codes "stat")

  unfoldable pub stat : Str → Io (Counted W) (Option EntryMeta)
  stat rel = expect (Request.stat root rel) as_stat

  abbrev as_entries : Response → Io (Counted W) (List (Str × EntryMeta))
  as_entries (Response.dir_entries entries) = pure (visible_entries ignore entries)
  as_entries _ = invalid (codes "list")

  unfoldable pub list_dir : Str → Io (Counted W) (List (Str × EntryMeta))
  list_dir rel = expect (Request.list_dir root rel) as_entries

  abbrev as_chunk : Response → Io (Counted W) (Bytes × Bool)
  as_chunk (Response.file_chunk bytes eof) = pure (bytes, eof)
  as_chunk _ = invalid (codes "read")

  unfoldable pub read_file_chunk : Str → ℕ → ℕ → Io (Counted W) (Bytes × Bool)
  read_file_chunk rel offset len = expect (Request.read_file_chunk root rel offset len) as_chunk

  abbrev as_small_files : Response → Io (Counted W) (List (Str × Bytes))
  as_small_files (Response.small_files files) = pure files
  as_small_files _ = invalid (codes "small-files")

  unfoldable pub read_small_files : List Str → ℕ → ℕ → Io (Counted W) (List (Str × Bytes))
  read_small_files rels max_file_bytes max_total_bytes =
      expect (Request.read_small_files root rels max_file_bytes max_total_bytes) as_small_files

  unfoldable pub write_file_at : Str → ℕ → Bytes → Io (Counted W) Unit
  unfolding next_op_id
  write_file_at rel offset bytes = do
    op_id ← next_op_id (codes "write-at")
    response ← lower (
        op retries reconnect (
          send_with_byte_stream stream
            (Request.write_file_at_stream root rel offset (length bytes) (some op_id)) bytes
            stream_write_chunk_size))
    pure tt

  unfoldable pub truncate : Str → ℕ → Io (Counted W) Unit
  unfolding next_op_id
  truncate rel size = tell (codes "truncate") (λ op_id. Request.truncate root rel size (some op_id))

  unfoldable pub fsync : Str → Io (Counted W) Unit
  fsync rel = do response ← ask (Request.fsync root rel); pure tt

  unfoldable pub rename : Str → Str → Io (Counted W) Unit
  unfolding next_op_id
  rename from to = tell (codes "rename") (λ op_id. Request.rename root from to (some op_id))

  unfoldable pub mkdir_p : Str → Io (Counted W) Unit
  unfolding next_op_id
  mkdir_p path =
      let rel = skip_slashes (or_path path (strip_prefix path root)) in
      tell (codes "mkdir") (λ op_id. Request.mkdir root rel (some op_id))

  unfoldable pub create_symlink : Str → Str → Io (Counted W) Unit
  unfolding next_op_id
  create_symlink rel target =
      tell (codes "symlink") (λ op_id. Request.symlink root rel target (some op_id))

  unfoldable pub set_metadata : Str → Option ℕ → Option ℤ → Io (Counted W) Unit
  unfolding next_op_id
  set_metadata rel mode modified =
      tell (codes "metadata") (λ op_id. Request.set_metadata root rel mode modified (some op_id))

  unfoldable pub remove : Str → EntryMeta → Io (Counted W) Unit
  unfolding next_op_id
  remove rel meta =
      tell (codes "remove") (λ op_id. Request.remove root rel (kind_eq meta.kind dir) (some op_id))

  unfoldable pub read_range : Str → ℕ → ℕ → Io (Counted W) (List Bytes × Bool)
  read_range rel offset len =
      lower (
        op retries reconnect
          (send_expecting_frames stream (Request.read_range root rel offset len)))

  abbrev as_scan : Response → Io (Counted W) (Snapshot × List Str)
  as_scan (Response.snapshot_meta snapshot complete_dirs) = pure (snapshot, complete_dirs)
  as_scan _ = invalid (codes "snapshot")

  unfoldable pub snapshot_meta : ℕ → Io (Counted W) (Snapshot × List Str)
  snapshot_meta max_entries = expect (Request.snapshot_meta root ignore max_entries) as_scan

  abbrev as_batch : Response → Io (Counted W) ChangeBatch
  as_batch (Response.changes epoch cursor events reset live) =
      pure (record { epoch = epoch; cursor = cursor; events = events; reset = reset; live = live })
  as_batch _ = invalid (codes "change feed")

  -- sent once, without a reconnection; `timeout` is in milliseconds
  unfoldable pub watch_changes : ℕ → Option ℕ → ℕ → Io (Counted W) ChangeBatch
  watch_changes epoch since timeout = do
    response ←
        lower (send stream (Request.watch_changes root ignore epoch since (min timeout 20000)))
    as_batch response

  abbrev as_stats : Response → Io (Counted W) FsStats
  as_stats (Response.stat_fs stats) = pure stats
  as_stats _ = invalid (codes "statfs")

  unfoldable pub statfs : Io (Counted W) FsStats
  statfs = expect (Request.stat_fs root) as_stats

  abbrev as_results : Response → Io (Counted W) (List (Str × EntryMeta))
  as_results (Response.search_results results) = pure results
  as_results _ = invalid (codes "search")

  unfoldable pub search : Str → ℕ → Io (Counted W) (List (Str × EntryMeta))
  search query limit = expect (Request.search root query ignore limit) as_results

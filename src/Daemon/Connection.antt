-- ===== src/Daemon/Connection.antt =====
-- src/daemon.rs: the loop over the requests of one client, and the requests that carry frames of
-- bytes. The channel is an interface; the text of an error, and the run of a command, are arguments.
-- The loops over what arrives have a bound on their rounds.
pub mod Announce
pub mod Refusal
use mobfs.Base.{
  ℕ, zero, suc, ◌+◌, ◌-◌, ◌*◌, ◌==◌, min, Bool, true, false, ◌&&◌, ◌||◌, not, Option, none, some,
  List, [], ◌∷◌, ltb, leb, if◌then◌else◌, length, take, drop,
}
use mobfs.Base.Str.{Str, codes, str_eq}
use mobfs.Error.{Done, Result, ok, err, MobfsError, remote, io, unexpected_eof, other_kind}
use mobfs.Paths.{FilePath, safe_join}
use mobfs.Protocol.{Bytes, Request, Response, write}
use mobfs.Disk.{Io, Disk, Metadata, ◌>>=◌, ◌>>◌, pure, fail, lift, attempt}
use mobfs.Daemon.{RootPolicy, check_root, op_done, mark_op_done}
use mobfs.Daemon.Requests.{make_parent, handle_write_file_at_bytes}
use mobfs.Daemon.Dispatch.{Scans, handle_request}

-- one end of the encrypted channel, with the frames that hold a request or a response
pub record Channel (D : Type 0) : Type 0 where
  pub read_request : Io D Request
  pub write_response : Response → Io D Unit
  pub read_encrypted : Io D Bytes
  pub write_encrypted : Bytes → Io D Unit

abbrev pub stream_announce_bytes : ℕ
stream_announce_bytes = 4 * 1024 * 1024

abbrev range_frame_bytes : ℕ
range_frame_bytes = 1024 * 1024

abbrev max_range_bytes : ℕ
max_range_bytes = 16 * 1024 * 1024

abbrev pub too_long : {D A : Type 0} → Io D A
too_long = fail (remote (codes "binary write length mismatch"))

unfoldable pub request_label : Request → Str
request_label Request.hello = codes "Hello"
request_label (Request.snapshot _ _) = codes "Snapshot"
request_label (Request.stat _ _) = codes "Stat"
request_label (Request.list_dir _ _) = codes "ListDir"
request_label (Request.read_file _ _) = codes "ReadFile"
request_label (Request.read_file_chunk _ _ _ _) = codes "ReadFileChunk"
request_label (Request.read_small_files _ _ _ _) = codes "ReadSmallFiles"
request_label (Request.write_file _ _ _ _) = codes "WriteFile"
request_label (Request.write_file_start _ _ _) = codes "WriteFileStart"
request_label (Request.write_file_chunk _ _ _ _ _) = codes "WriteFileChunk"
request_label (Request.write_file_offset _ _ _) = codes "WriteFileOffset"
request_label (Request.write_file_at _ _ _ _) = codes "WriteFileAt"
request_label (Request.write_file_at_binary _ _ _ _) = codes "WriteFileAtBinary"
request_label (Request.write_file_at_stream _ _ _ _ _) = codes "WriteFileAtStream"
request_label (Request.truncate _ _ _ _) = codes "Truncate"
request_label (Request.fsync _ _) = codes "Fsync"
request_label (Request.rename _ _ _ _) = codes "Rename"
request_label (Request.write_file_finish _ _ _ _ _) = codes "WriteFileFinish"
request_label (Request.symlink _ _ _ _) = codes "Symlink"
request_label (Request.set_metadata _ _ _ _ _) = codes "SetMetadata"
request_label (Request.mkdir _ _ _) = codes "Mkdir"
request_label (Request.remove _ _ _ _) = codes "Remove"
request_label (Request.run _ _) = codes "Run"
request_label (Request.set_client_id _) = codes "SetClientId"
request_label (Request.read_range _ _ _ _) = codes "ReadRange"
request_label (Request.snapshot_meta _ _ _) = codes "SnapshotMeta"
request_label (Request.watch_changes _ _ _ _ _) = codes "WatchChanges"
request_label (Request.stat_fs _) = codes "StatFs"
request_label (Request.search _ _ _ _) = codes "Search"

-- whether to drop the connection, and the flag DROPPED afterwards
unfoldable pub should_drop_request : Option Str → Bool → Request → Bool × Bool
unfolding request_label
should_drop_request none dropped request = (false, dropped)
should_drop_request (some target) dropped request =
    if dropped || not (str_eq (request_label request) target)
    then (false, dropped)
    else (not dropped, true)

module _ {D : Type 0} (disk : Disk D) (channel : Channel D) where
  unfoldable pub drain_stream_bytes : ℕ → ℕ → ℕ → Io D Unit
  drain_stream_bytes zero read len = fail (io other_kind)
  drain_stream_bytes (suc rounds) read len = λ d.
      (if ltb read len
          then (do
            bytes ← channel.read_encrypted
            if ltb len (read + length bytes)
                then too_long
                else drain_stream_bytes rounds (read + length bytes) len)
          else pure tt)
        d

  module _ (root : FilePath) (origin : ℕ) (rel : Str) (path : FilePath) (offset : ℕ) where
    -- What has been announced after a frame.
    abbrev pub announce : ℕ → ℕ → Bool → Io D ℕ
    announce written announced true = do
      disk.record_change root origin rel (write (offset + announced) (written - announced))
      pure written
    announce written announced false = pure announced

    -- The loop over the frames, with what is written and what is announced. The file is written on
    -- from where the last frame ended.
    unfoldable pub write_frames : ℕ → ℕ → ℕ → ℕ → Io D (ℕ × ℕ)
    write_frames zero written announced len = fail (io other_kind)
    write_frames (suc rounds) written announced len = λ d.
        (if ltb written len
            then (do
              bytes ← channel.read_encrypted
              if ltb len (written + length bytes) then too_long else (do
                disk.write_at path (offset + written) bytes
                next ←
                    announce (written + length bytes) announced
                      (leb stream_announce_bytes (written + length bytes - announced))
                write_frames rounds (written + length bytes) next len))
            else pure (written, announced))
          d

    -- the frames, and the announcement of what is left
    unfoldable pub write_announced : ℕ → ℕ → Io D Unit
    unfolding write_frames
    write_announced rounds len = do
      (written, announced) ← write_frames rounds 0 0 len
      last ← announce written announced (ltb announced written || len == 0)
      pure tt

  abbrev mark_some : RootPolicy → Str → Option Str → Io D Unit
  mark_some policy root none = pure tt
  mark_some policy root (some op_id) = mark_op_done disk policy root op_id

  abbrev done_before : RootPolicy → Str → Option Str → Io D Bool
  done_before policy root none = pure false
  done_before policy root (some op_id) = op_done disk policy root op_id

  -- An operation that was done is read off the channel and not done again. A write of no bytes stands
  -- for the opening of the file, which makes it.
  unfoldable pub handle_write_file_at_stream :
      ℕ → RootPolicy → ℕ → Str → Str → ℕ → ℕ → Option Str → Io D Unit
  unfolding drain_stream_bytes write_announced
  handle_write_file_at_stream rounds policy origin root rel offset len op_id = do
    done ← done_before policy root op_id
    if done then drain_stream_bytes rounds 0 len else (do
      root_path ← check_root disk policy root
      path ← lift (safe_join root_path rel)
      make_parent disk path
      disk.write_at path offset []
      write_announced root_path origin rel path offset rounds len
      mark_some policy root op_id)

  unfoldable pub read_range : RootPolicy → Str → Str → ℕ → ℕ → Io D (Bytes × Bool)
  read_range policy root rel offset len = do
    root ← check_root disk policy root
    path ← lift (safe_join root rel)
    opened ← disk.read_from path 0 0
    m ← λ d. (disk.file_metadata path d, d)
    bytes ← disk.read_from path offset (min (min len max_range_bytes) (m.len - offset))
    pure (bytes, leb m.len (offset + length bytes))

  -- data.chunks(size), whose number is at most that of the bytes
  unfoldable pub write_chunks : ℕ → ℕ → Bytes → Io D Unit
  write_chunks fuel size [] = pure tt
  write_chunks zero size (b ∷ bytes) = pure tt
  write_chunks (suc fuel) size (b ∷ bytes) =
      let later = write_chunks fuel size (drop size (b ∷ bytes)) in
      do channel.write_encrypted (take size (b ∷ bytes)); later

  module _ (scans : Scans D) (policy : RootPolicy) (text : MobfsError → Str)
      (handle_run : Str → List Str → Io D Unit) (rounds : ℕ) where
    abbrev pub send_result : Result Response → Io D Unit
    send_result (ok response) = channel.write_response response
    send_result (err e) = channel.write_response (Response.error (text e))

    abbrev done_result : Done → Result Response
    done_result (ok _) = ok Response.ok
    done_result (err e) = err e

    abbrev send_range : Result (Bytes × Bool) → Io D Unit
    send_range (err e) = send_result (err e)
    send_range (ok (bytes, eof)) = do
      channel.write_response (Response.range_header (length bytes) eof)
      write_chunks (length bytes) range_frame_bytes bytes

    abbrev after_run : Done → Io D Unit
    after_run (ok _) = pure tt
    after_run (err e) = send_result (err e)

    -- the frame of a binary write, if one came
    abbrev write_binary : Str → Str → ℕ → ℕ → Result Bytes → Io D (Result Unit)
    write_binary root rel offset len (err e) = pure (err e)
    write_binary root rel offset len (ok bytes) =
        if length bytes == len
        then attempt (handle_write_file_at_bytes disk policy root rel offset bytes)
        else attempt too_long

    -- One request of the client, and the client's id after it.
    unfoldable pub answer_request : ℕ → Request → Io D ℕ
    unfolding handle_write_file_at_stream read_range write_chunks
    answer_request client_id (Request.set_client_id id) = do
      channel.write_response Response.ok
      pure id
    answer_request client_id (Request.read_range root rel offset len) = do
      range ← attempt (read_range policy root rel offset len)
      send_range range
      pure client_id
    answer_request client_id (Request.run root command) = do
      result ← attempt (handle_run root command)
      after_run result
      pure client_id
    answer_request client_id (Request.write_file_at_binary root rel offset len) = do
      frame ← attempt channel.read_encrypted
      result ← write_binary root rel offset len frame
      send_result (done_result result)
      pure client_id
    answer_request client_id (Request.write_file_at_stream root rel offset len op_id) = do
      result ←
          attempt (handle_write_file_at_stream rounds policy client_id root rel offset len op_id)
      send_result (done_result result)
      pure client_id
    answer_request client_id request = do
      result ← attempt (handle_request disk scans policy client_id request)
      send_result result
      pure client_id

    abbrev next_request :
        (Bool → ℕ → Io D Unit) → Option Str → Bool → ℕ → Result Request → Io D Unit
    next_request later target dropped client_id (err (io unexpected_eof)) = pure tt
    next_request later target dropped client_id (err e) = fail e
    next_request later target dropped client_id (ok request) =
        let (drop_it, dropped_now) = should_drop_request target dropped request in
        if drop_it
        then pure tt
        else (do next_id ← answer_request client_id request; later dropped_now next_id)

    -- handle_client after the handshake, for the given number of requests; `target` is the variable
    -- that names a request to drop in tests
    unfoldable pub handle_client : ℕ → Option Str → Bool → ℕ → Io D Unit
    unfolding answer_request should_drop_request
    handle_client zero target dropped client_id = fail (io other_kind)
    handle_client (suc requests) target dropped client_id = do
      request ← attempt channel.read_request
      next_request (handle_client requests target) target dropped client_id request

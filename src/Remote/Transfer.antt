-- ===== src/Remote/Transfer.antt =====
-- src/remote.rs: how RemoteClient moves whole files. `disk` holds the workspace. A file's time of
-- change in nanoseconds, the digest, and the journal's text and parser are arguments. The loops over
-- chunks have a bound on their rounds as an argument, and fail when it is used up.
pub mod Download
use mobfs.Base.{
  ℕ, zero, suc, ◌+◌, ◌-◌, ◌*◌, min, Bool, true, false, Option, none, some, List, [], ◌∷◌, ◌++◌,
  ◌==◌, if◌then◌else◌, length,
}
use mobfs.Base.Str.{Str, codes}
use mobfs.Error.{Result, remote, io, other_kind}
use mobfs.Snapshot.{EntryMeta, symlink, kind_eq}
use mobfs.Paths.{FilePath, components}
use mobfs.Protocol.{Bytes, Request, Response}
use mobfs.Disk.{
  Io, Disk, ◌>>=◌, ◌>>◌, pure, fail, lift, ignore_error, Metadata, FileType, is_symlink,
}
use mobfs.Daemon.{atomic_temp_path}
use mobfs.Daemon.Requests.{make_parent, set_mode, set_mtime}
use mobfs.Journal.{JournalOp, record_op, complete}
use mobfs.Remote.Wire.{Stream}
use mobfs.Remote.Client.{Counted, lower, ask, expect, read_file_chunk, create_symlink}

abbrev pub transfer_chunk_size : ℕ
transfer_chunk_size = 1024 * 1024

unfoldable pub upload_id_for : (Str → Str) → (ℕ → Str) → Str → ℕ → ℕ → Str
upload_id_for digest decimal rel len modified =
    digest (rel ++ (b':' ∷ (decimal len ++ (b':' ∷ decimal modified))))

abbrev pub out_of_rounds : {W A : Type 0} → Io W A
out_of_rounds = fail (io other_kind)

module _ {W : Type 0} (disk : Disk W) (stream : Stream W) (reconnect : Io W Unit)
    (retries op_nonce : ℕ) (digest : Str → Str) (decimal : ℕ → Str) (root : Str)
    (ignore : List Str) where
  abbrev pub chunk_at : Str → ℕ → Io (Counted W) (Bytes × Bool)
  chunk_at rel offset =
      read_file_chunk stream reconnect retries op_nonce digest decimal root ignore rel offset
        transfer_chunk_size

  abbrev request : Request → Io (Counted W) Response
  request = ask stream reconnect retries op_nonce digest decimal root ignore

  -- the loop of download_file; the file is written on from where the last chunk ended
  unfoldable pub download_chunks : ℕ → Str → FilePath → ℕ → Io (Counted W) Unit
  download_chunks zero rel temp offset = out_of_rounds
  download_chunks (suc rounds) rel temp offset = do
    (bytes, eof) ← chunk_at rel offset
    lower (disk.overwrite_at temp offset bytes)
    if eof then pure tt else download_chunks rounds rel temp (offset + length bytes)

  module _ (local : FilePath) (rounds : ℕ) where
    abbrev relink : FilePath → Option Str → Io W Unit
    relink path none = fail (remote (codes "symlink target missing"))
    relink path (some target) = do ignore_error (disk.remove_file path); disk.symlink target path

    unfoldable pub download_file : Str → EntryMeta → Io (Counted W) Unit
    unfolding download_chunks
    download_file rel meta =
        let path = local ++ components rel in
        let temp = atomic_temp_path disk path in
        do
          lower (make_parent disk path)
          if kind_eq meta.kind symlink then lower (relink path meta.link_target) else (do
            lower (disk.create temp [])
            download_chunks rounds rel temp 0
            lower (disk.rename temp path)
            lower (set_mode disk path meta.mode)
            lower (set_mtime disk path meta.modified))

    -- the bytes before the offset, which are hashed and not sent
    unfoldable pub hash_front : ℕ → FilePath → ℕ → ℕ → Io W Bytes
    hash_front zero path position remaining = pure []
    hash_front (suc fuel) path position remaining = if remaining == 0 then pure [] else (do
      bytes ← disk.read_from path position (min remaining transfer_chunk_size)
      if length bytes == 0 then pure [] else (do
        rest ← hash_front fuel path (position + length bytes) (remaining - length bytes)
        pure (bytes ++ rest)))

    -- The loop that reads and sends. What has been read is hashed.
    unfoldable pub upload_chunks : ℕ → Str → Str → FilePath → ℕ → ℕ → Io (Counted W) Bytes
    upload_chunks zero rel upload_id path position offset = out_of_rounds
    upload_chunks (suc rounds) rel upload_id path position offset = do
      bytes ← lower (disk.read_from path position transfer_chunk_size)
      if length bytes == 0 then pure [] else (do
        response ← request (Request.write_file_chunk root rel upload_id offset bytes)
        rest ←
            upload_chunks rounds rel upload_id path (position + length bytes)
              (offset + length bytes)
        pure (bytes ++ rest))

    abbrev resume_at : ℕ → Response → Io (Counted W) ℕ
    resume_at len (Response.file_offset value) = pure (min value len)
    resume_at len _ = fail (remote (codes "invalid upload offset response"))

    module _ (nanos : Metadata → ℕ) (to_toml : List JournalOp → Result Bytes)
        (from_toml : Bytes → Result (List JournalOp)) where
      -- the part between the journal's two entries; a read of no bytes stands for the opening
      unfoldable pub send_file : Str → Str → FilePath → Metadata → Io (Counted W) Unit
      unfolding hash_front upload_chunks
      send_file rel upload_id path m = do
        started ← request (Request.write_file_start root rel upload_id)
        opened ← lower (disk.read_from path 0 0)
        offset ←
            expect stream reconnect retries op_nonce digest decimal root ignore
              (Request.write_file_offset root rel upload_id) (resume_at m.len)
        front ← lower (hash_front offset path 0 offset)
        rest ← upload_chunks rounds rel upload_id path (length front) offset
        finished ←
            request (Request.write_file_finish root rel upload_id (digest (front ++ rest)) m.mode)
        pure tt

      abbrev upload_as : Str → FilePath → Metadata → FileType → Io (Counted W) Unit
      upload_as rel path m is_symlink = do
        target ← lower (λ w. (disk.read_link path w, w))
        create_symlink stream reconnect retries op_nonce digest decimal root ignore rel target
      upload_as rel path m _ =
          let upload_id = upload_id_for digest decimal rel m.len (nanos m) in
          do
            lower (record_op disk local to_toml from_toml (JournalOp.upload rel upload_id))
            send_file rel upload_id path m
            lower (complete disk local to_toml from_toml (JournalOp.upload rel upload_id))

      unfoldable pub upload_file : Str → Io (Counted W) Unit
      unfolding send_file
      upload_file rel =
          let path = local ++ components rel in
          do m ← lower (λ w. (disk.symlink_metadata path w, w)); upload_as rel path m m.file_type

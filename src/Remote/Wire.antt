-- ===== src/Remote/Wire.antt =====
-- src/protocol.rs: how a request is sent and its response read. The frames of the encrypted channel
-- and their JSON are an interface.
use mobfs.Base.{
  ℕ, zero, suc, ◌+◌, Bool, true, false, ◌||◌, List, [], ◌∷◌, ◌==◌, ltb, if◌then◌else◌, length, take,
  drop,
}
use mobfs.Base.Str.{codes}
use mobfs.Error.{server, remote}
use mobfs.Protocol.{Bytes, Request, Response, error, range_header}
use mobfs.Disk.{Io, ◌>>=◌, ◌>>◌, pure, fail}

-- SecureStream, with write_frame for requests and read_frame for responses
pub record Stream (W : Type 0) : Type 0 where
  pub write_frame : Request → Io W Unit
  pub read_frame : Io W Response
  pub write_encrypted : Bytes → Io W Unit
  pub read_encrypted : Io W Bytes

abbrev refuse : {W : Type 0} → Response → Io W Response
refuse (error message) = fail (server message)
refuse response = pure response

abbrev checked : {W A : Type 0} → Bytes → Io W A → Bool → Io W A
checked chunk later true = fail (remote (codes "range read length mismatch"))
checked chunk later false = later

module _ {W : Type 0} (stream : Stream W) where
  unfoldable pub read_response : Io W Response
  read_response = do response ← stream.read_frame; refuse response

  unfoldable pub send : Request → Io W Response
  unfolding read_response
  send request = do stream.write_frame request; read_response

  -- data.chunks(size), whose number is at most that of the bytes
  write_chunks : ℕ → ℕ → Bytes → Io W Unit
  write_chunks fuel size [] = pure tt
  write_chunks zero size (b ∷ bytes) = pure tt
  write_chunks (suc fuel) size (b ∷ bytes) =
      let later = write_chunks fuel size (drop size (b ∷ bytes)) in
      do stream.write_encrypted (take size (b ∷ bytes)); later

  unfoldable pub send_with_byte_stream : Request → Bytes → ℕ → Io W Response
  unfolding write_chunks read_response
  send_with_byte_stream request bytes chunk_size = do
    stream.write_frame request
    write_chunks (length bytes) chunk_size bytes
    read_response

  -- The frames up to the announced length. Each is not empty, so as many rounds as there are bytes
  -- are enough.
  unfoldable pub read_frames : ℕ → ℕ → ℕ → Io W (List Bytes)
  read_frames zero received len = pure []
  read_frames (suc fuel) received len = λ w.
      (if ltb received len
          then (do
            chunk ← stream.read_encrypted
            rest ←
                checked chunk (read_frames fuel (received + length chunk) len)
                  (length chunk == 0 || ltb len (received + length chunk))
            pure (chunk ∷ rest))
          else pure [])
        w

  abbrev range_frames : Response → Io W (List Bytes × Bool)
  range_frames (range_header len eof) = do frames ← read_frames len 0 len; pure (frames, eof)
  range_frames _ = fail (remote (codes "invalid range response"))

  unfoldable pub send_expecting_frames : Request → Io W (List Bytes × Bool)
  unfolding read_frames read_response
  send_expecting_frames request = do
    stream.write_frame request
    response ← read_response
    range_frames response

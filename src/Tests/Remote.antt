-- ===== src/Tests/Remote.antt =====
-- A download over a stream whose other end holds a file of three bytes. The world is the offset of
-- the last request and what the local files hold, all of them the same.
use mobfs.Base.{ℕ, true, ◌≡◌, refl, ap, ◌∙◌, Option, none, some, [], ◌∷◌, ◌++◌, take, length, arith}
use mobfs.Base.Str.{codes}
use mobfs.Error.{ok, err, io, not_found, remote}
use mobfs.Paths.{FilePath}
use mobfs.Protocol.{Bytes, Request, Response}
use mobfs.Disk.{Disk, pure}
use mobfs.Remote.{op}
use mobfs.Remote.Wire.{Stream, read_response, send, read_frames}
use mobfs.Remote.Transfer.{download_chunks}
use mobfs.Remote.Transfer.Download.{Served, chunk, is_last, take_all, download_chunks_lem}

abbrev World : Type 0
World = ℕ × Bytes

abbrev three : Bytes
three = 1 ∷ (2 ∷ (3 ∷ []))

abbrev disk : Disk World
disk = record {
  canonicalize = λ root d. ok [];
  display = λ path. [];
  digest = λ path. [];
  temp_dir = [];
  process_id = codes "7";
  exists = λ path d. true;
  symlink_metadata = λ path d. err (io not_found);
  file_metadata = λ path d. err (io not_found);
  read_link = λ path d. err (io not_found);
  read_dir = λ path. pure [];
  read = λ path d. (ok d.1, d);
  read_from = λ path offset len. pure [];
  create_dir_all = λ path. pure tt;
  create = λ path bytes d. (ok tt, (d.0, bytes));
  write_at = λ path offset bytes. pure tt;
  overwrite_at = λ path offset bytes d. (ok tt, (d.0, take offset d.1 ++ bytes));
  set_len = λ path size. pure tt;
  sync_all = λ path. pure tt;
  rename = λ from to. pure tt;
  remove_file = λ path. pure tt;
  remove_dir_all = λ path. pure tt;
  symlink = λ target path. pure tt;
  set_mode = λ path mode. pure tt;
  set_mtime = λ path modified. pure tt;
  sha256 = λ path. pure [];
  age = λ path d. none;
  next_mark = pure 1;
  record_change = λ root origin rel kind. pure tt;
}

abbrev note : Request → World → World
note (Request.read_file_chunk root rel offset len) (last, local) = (offset, local)
note request world = world

abbrev stream : Stream World
stream = record {
  write_frame = λ request w. (ok tt, note request w);
  read_frame = λ w. (ok (Response.file_chunk (chunk three w.0) (is_last (chunk three w.0))), w);
  write_encrypted = λ bytes. pure tt;
  read_encrypted = pure (7 ∷ (8 ∷ []));
}

abbrev contents : World → FilePath → Option Bytes
contents w path = some w.1

local_held : (w : World) (old : Bytes) → some w.1 ≡ some old → w.1 ≡ old
local_held w old h = cc

three_served :
    Served disk stream
      (pure tt)
      0
      9
      (λ t. t)
      (λ n. n ∷ [])
      (codes "/r")
      []
      contents
      (codes "a")
      []
      three
unfolding op send read_response
three_served = record {
  answered = λ offset w. refl;
  keeps = λ offset w. refl;
  written = λ old part w h. refl;
  appends = λ old part w h.
      ap (λ t. some (take (length old) t ++ part)) (local_held w old h)
      ∙ ap (λ t. some (t ++ part)) (take_all (length old) old (omega arith));
}

download_chunks_lem_example :
    ((download_chunks disk stream
        (pure tt)
        0
        9
        (λ t. t)
        (λ n. n ∷ [])
        (codes "/r")
        []
        1
        (codes "a")
        []
        0
        (0, (0, []))).0
      ≡ ok tt)
    × (contents
          (download_chunks disk stream
            (pure tt)
            0
            9
            (λ t. t)
            (λ n. n ∷ [])
            (codes "/r")
            []
            1
            (codes "a")
            []
            0
            (0, (0, []))).1.1
          []
        ≡ some three)
download_chunks_lem_example =
    download_chunks_lem disk stream (pure tt) 0 9 (λ t. t) (λ n. n ∷ []) (codes "/r") [] contents
      (codes "a") [] three three_served 1 0 0 (0, []) (omega arith) (omega arith) refl

-- frames of two bytes do not make up a length of three
frames_too_long :
    (read_frames stream 3 0 3 (0, [])).0 ≡ err (remote (codes "range read length mismatch"))
unfolding read_frames
frames_too_long = refl

four_in_two_frames :
    (read_frames stream 4 0 4 (0, [])).0 ≡ ok ((7 ∷ (8 ∷ [])) ∷ ((7 ∷ (8 ∷ [])) ∷ []))
unfolding read_frames
four_in_two_frames = refl

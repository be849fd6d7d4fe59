-- ===== src/Tests/Connection.antt =====
-- Streamed writes over a channel whose every frame holds two bytes. The world is what has been
-- announced.
use mobfs.Base.{◌+◌, ap, true, false, ◌≡◌, refl, none, some, [], ◌∷◌, ◌++◌}
use mobfs.Base.Str.{codes, str_eq}
use mobfs.Error.{ok, err, io, not_found, remote}
use mobfs.Protocol.{ChangeKind, write, metadata, replaced, Request}
use mobfs.Disk.{Disk, pure}
use mobfs.Daemon.Connection.{
  Channel, drain_stream_bytes, write_frames, write_announced, request_label, should_drop_request,
}
use mobfs.Daemon.Connection.Announce.{Ranges, AnnounceLaws, Covers, write_announced-Covers}

abbrev noted : ChangeKind → Ranges → Ranges
noted (write offset len) ranges = ranges ++ ((offset, len) ∷ [])
noted metadata ranges = ranges
noted replaced ranges = ranges

abbrev disk : Disk Ranges
disk = record {
  canonicalize = λ root d. ok [];
  display = λ path. [];
  digest = λ path. [];
  temp_dir = [];
  process_id = codes "7";
  exists = λ path d. true;
  symlink_metadata = λ path d. err (io not_found);
  file_metadata = λ path d. err (io not_found);
  read_link = λ path d. err (io not_found);
  read_dir = λ path. pure [];
  read = λ path. pure [];
  read_from = λ path offset len. pure [];
  create_dir_all = λ path. pure tt;
  create = λ path bytes. pure tt;
  write_at = λ path offset bytes. pure tt;
  overwrite_at = λ path offset bytes. pure tt;
  set_len = λ path size. pure tt;
  sync_all = λ path. pure tt;
  rename = λ from to. pure tt;
  remove_file = λ path. pure tt;
  remove_dir_all = λ path. pure tt;
  symlink = λ target path. pure tt;
  set_mode = λ path mode. pure tt;
  set_mtime = λ path modified. pure tt;
  sha256 = λ path. pure [];
  age = λ path d. none;
  next_mark = pure 1;
  record_change = λ root origin rel kind d. (ok tt, noted kind d);
}

abbrev channel : Channel Ranges
channel = record {
  read_request = pure Request.hello;
  write_response = λ response. pure tt;
  read_encrypted = pure (7 ∷ (8 ∷ []));
  write_encrypted = λ bytes. pure tt;
}

disk_announces : AnnounceLaws disk channel [] 5 (codes "a") [] 10 (λ ranges. ranges)
disk_announces = record {
  read_keeps = λ d. refl;
  write_keeps = λ at b d. refl;
  record_adds = λ at len d. refl;
}

four_written : (write_announced disk channel [] 5 (codes "a") [] 10 3 4 []) ≡ (ok tt, (10, 4) ∷ [])
unfolding write_announced write_frames
four_written = refl

write_announced-Covers_example :
    (added : Ranges) × ((write_announced disk channel [] 5 (codes "a") [] 10 3 4 []).1
      ≡ [] ++ added)
    × Covers 10 (10 + 4) added
write_announced-Covers_example =
    write_announced-Covers disk channel [] 5 (codes "a") [] 10 (λ ranges. ranges) disk_announces 3 4
      [] (ap (λ p. p.0) four_written)

-- an odd length cannot be made up of frames of two bytes
odd_length_fails :
    (drain_stream_bytes disk channel 3 0 3 []).0
    ≡ err (remote (codes "binary write length mismatch"))
unfolding drain_stream_bytes
odd_length_fails = refl

-- a request is dropped at most once
drops_once :
    (should_drop_request (some (codes "Hello")) false Request.hello ≡ (true, true))
    × (should_drop_request (some (codes "Hello")) true Request.hello ≡ (false, true))
unfolding should_drop_request request_label str_eq
drops_once = (refl, refl)

-- ===== src/Protocol.antt =====
-- src/protocol.rs: the messages that a client and the daemon exchange.
use mobfs.Base.{ℕ, Bool, Option, List}
use mobfs.Base.Str.{Str}
use mobfs.Base.Int.{ℤ}
use mobfs.Snapshot.{EntryMeta, Snapshot}

abbrev pub protocol_version : ℕ
protocol_version = 13

-- the bytes of a message's payload
abbrev pub Bytes : Type 0
Bytes = List ℕ

-- The fields of each request in the source's order, `root` first where it has one.
pub data Request : Type 0 where
  hello : Request
  snapshot : Str → List Str → Request
  stat : Str → Str → Request
  list_dir : Str → Str → Request
  read_file : Str → Str → Request
  read_file_chunk : Str → Str → ℕ → ℕ → Request
  read_small_files : Str → List Str → ℕ → ℕ → Request
  write_file : Str → Str → Bytes → ℕ → Request
  write_file_start : Str → Str → Str → Request
  write_file_chunk : Str → Str → Str → ℕ → Bytes → Request
  write_file_offset : Str → Str → Str → Request
  write_file_at : Str → Str → ℕ → Bytes → Request
  write_file_at_binary : Str → Str → ℕ → ℕ → Request
  write_file_at_stream : Str → Str → ℕ → ℕ → Option Str → Request
  truncate : Str → Str → ℕ → Option Str → Request
  fsync : Str → Str → Request
  rename : Str → Str → Str → Option Str → Request
  write_file_finish : Str → Str → Str → Str → ℕ → Request
  symlink : Str → Str → Str → Option Str → Request
  set_metadata : Str → Str → Option ℕ → Option ℤ → Option Str → Request
  mkdir : Str → Str → Option Str → Request
  remove : Str → Str → Bool → Option Str → Request
  run : Str → List Str → Request
  set_client_id : ℕ → Request
  read_range : Str → Str → ℕ → ℕ → Request
  snapshot_meta : Str → List Str → ℕ → Request
  watch_changes : Str → List Str → ℕ → Option ℕ → ℕ → Request
  stat_fs : Str → Request
  search : Str → Str → List Str → ℕ → Request

pub data ChangeKind : Type 0 where
  write : ℕ → ℕ → ChangeKind
  metadata : ChangeKind
  replaced : ChangeKind

pub record ChangeEvent : Type 0 where
  pub path : Str
  pub kind : ChangeKind

pub record FsStats : Type 0 where
  pub total_bytes : ℕ
  pub free_bytes : ℕ
  pub avail_bytes : ℕ
  pub files : ℕ
  pub free_files : ℕ

pub data RunStream : Type 0 where
  stdout stderr : RunStream

pub data Response : Type 0 where
  hello : ℕ → Response
  snapshot : Snapshot → Response
  stat : Option EntryMeta → Response
  dir_entries : List (Str × EntryMeta) → Response
  file : Bytes → Response
  file_chunk : Bytes → Bool → Response
  small_files : List (Str × Bytes) → Response
  file_offset : ℕ → Response
  run_output : RunStream → Bytes → Response
  run_result : Option ℤ → Bytes → Bytes → Response
  range_header : ℕ → Bool → Response
  snapshot_meta : Snapshot → List Str → Response
  changes : ℕ → ℕ → List ChangeEvent → Bool → Bool → Response
  stat_fs : FsStats → Response
  search_results : List (Str × EntryMeta) → Response
  ok : Response
  error : Str → Response

-- ===== src/Crypto.antt =====
-- src/crypto.rs: the framed and encrypted channel between a client and the daemon. The cipher is a
-- third-party crate's, and a parameter. A socket is the bytes still to be read and the bytes
-- written; one that is closed refuses writes.
pub mod Nonce
pub mod Frames
pub mod Handshake
use mobfs.Base.{
  ℕ, zero, suc, ◌+◌, ◌-◌, ◌*◌, ◌/◌, ◌%◌, ◌^◌, ◌≡◌, min, Bool, true, false, ◌&&◌, not, Option, none,
  some, List, [], ◌∷◌, ◌++◌, ltb, leb, ◌==◌, if◌then◌else◌, length, take, drop,
}
use mobfs.Base.Str.{Str, codes}
use mobfs.Error.{Done, Result, ok, err, MobfsError, remote, io, unexpected_eof, other_kind}
use mobfs.Protocol.{Bytes}

abbrev pub tag_len : ℕ
tag_len = 16

abbrev pub max_frame : ℕ
max_frame = 128 * 1024 * 1024

-- ChaCha20Poly1305 with its detached tag: what is sealed is opened again with the same key and
-- nonce, the text keeps its length, and a tag has 16 bytes.
pub record Aead : Type 0 where
  pub seal : Bytes → Bytes → Bytes → Option (Bytes × Bytes)
  pub open_sealed : Bytes → Bytes → Bytes → Bytes → Option Bytes
  pub open-seal :
      (key nonce bytes text tag : Bytes)
      → seal key nonce bytes ≡ some (text, tag)
      → open_sealed key nonce text tag ≡ some bytes
  pub length-seal :
      (key nonce bytes text tag : Bytes)
      → seal key nonce bytes ≡ some (text, tag)
      → (length text ≡ length bytes) × (length tag ≡ tag_len)

pub record TcpStream : Type 0 where
  pub incoming : Bytes
  pub outgoing : Bytes
  pub closed : Bool

pub record SecureStream : Type 0 where
  pub stream : TcpStream
  pub send_key : Bytes
  pub recv_key : Bytes
  pub send_counter : ℕ
  pub recv_counter : ℕ

-- SecureStream::new
abbrev pub new_stream : TcpStream → Bytes → Bytes → SecureStream
new_stream stream send_key recv_key = record {
  stream = stream;
  send_key = send_key;
  recv_key = recv_key;
  send_counter = 0;
  recv_counter = 0;
}

-- n.to_be_bytes() of the given number of bytes
unfoldable pub to_be_bytes : ℕ → ℕ → Bytes
to_be_bytes zero n = []
to_be_bytes (suc w) n = to_be_bytes w (n / 256) ++ (n % 256 ∷ [])

-- from_be_bytes, with the value of the bytes before
unfoldable pub from_be_bytes : ℕ → Bytes → ℕ
from_be_bytes acc [] = acc
from_be_bytes acc (b ∷ bs) = from_be_bytes (acc * 256 + b) bs

-- four zeros, and the counter
unfoldable pub nonce : ℕ → Bytes
unfolding to_be_bytes
nonce counter = 0 ∷ (0 ∷ (0 ∷ (0 ∷ to_be_bytes 8 counter)))

-- u64::saturating_add(1)
abbrev pub next_counter : ℕ → ℕ
next_counter counter = min (counter + 1) (2 ^ 64 - 1)

abbrev too_large : MobfsError
too_large = remote (codes "protocol frame too large")

abbrev pub unauthentic : MobfsError
unauthentic = remote (codes "encrypted frame authentication failed")

abbrev pub write_all : TcpStream → Bytes → Done × TcpStream
write_all s bytes =
    if s.closed
    then (err (io other_kind), s)
    else (ok tt, record s { outgoing = s.outgoing ++ bytes })

abbrev read_body : TcpStream → ℕ → Result Bytes × TcpStream
read_body s len =
    let bytes = take len s.incoming in
    let rest = record s { incoming = drop len s.incoming } in
    if ltb max_frame len
    then (err too_large, s)
    else if not (length bytes == len)
    then (err (io unexpected_eof), rest)
    else (ok bytes, rest)

-- `read_exact` of the length fails at the end of the stream, and uses up what was there.
unfoldable pub read_raw : TcpStream → Result Bytes × TcpStream
unfolding from_be_bytes
read_raw s =
    if ltb (length s.incoming) 4
    then (err (io unexpected_eof), record s { incoming = [] })
    else read_body (record s { incoming = drop 4 s.incoming }) (from_be_bytes 0 (take 4 s.incoming))

unfoldable pub write_raw : TcpStream → Bytes → Done × TcpStream
unfolding to_be_bytes
write_raw s bytes =
    if leb (2 ^ 32) (length bytes)
    then (err too_large, s)
    else write_all s (to_be_bytes 4 (length bytes) ++ bytes)

abbrev opened : Option Bytes → Result Bytes
opened none = err unauthentic
opened (some bytes) = ok bytes

module _ (cipher : Aead) where
  abbrev decrypted : Bytes → ℕ → Result Bytes → Result Bytes
  decrypted key counter (err e) = err e
  decrypted key counter (ok bytes) =
      let tag_start = length bytes - tag_len in
      if ltb (length bytes) tag_len
      then err unauthentic
      else opened
          (cipher.open_sealed key (nonce counter) (take tag_start bytes) (drop tag_start bytes))

  abbrev advanced : SecureStream → TcpStream → Result Bytes → SecureStream
  advanced s stream (err e) = record s { stream = stream }
  advanced s stream (ok bytes) = record s {
    stream = stream;
    recv_counter = next_counter s.recv_counter;
  }

  -- The counter goes on as soon as a whole frame was read, authentic or not.
  unfoldable pub read_encrypted : SecureStream → Result Bytes × SecureStream
  unfolding read_raw nonce
  read_encrypted s =
      let (bytes, stream) = read_raw s.stream in
      (decrypted s.recv_key s.recv_counter bytes, advanced s stream bytes)

  abbrev send_sealed : SecureStream → ℕ → Option (Bytes × Bytes) → Done × SecureStream
  send_sealed s len none = (err (remote (codes "encrypted frame failed")), s)
  send_sealed s len (some (text, tag)) =
      let (sent, stream) = write_all s.stream (to_be_bytes 4 len ++ (text ++ tag)) in
      (sent, record s { stream = stream })

  -- The counter goes on whether or not the frame is sent.
  unfoldable pub write_encrypted : SecureStream → Bytes → Done × SecureStream
  unfolding nonce to_be_bytes
  write_encrypted s bytes =
      let next = record s { send_counter = next_counter s.send_counter } in
      let len = length bytes + tag_len in
      if leb (2 ^ 32) len
      then (err too_large, next)
      else send_sealed next len (cipher.seal s.send_key (nonce s.send_counter) bytes)

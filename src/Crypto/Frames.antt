-- ===== src/Crypto/Frames.antt =====
-- src/crypto.rs: what is written on one side of a channel is read on the other.
use mobfs.Base.{
  ℕ, ◌+◌, ◌-◌, ◌^◌, ◌≤◌, ◌≡◌, ap, ◌≢◌, subst, inl, inr, true, false, none, some, ◌++◌, append_assoc,
  arith, Bool-cases, Option-cases, length, length-append, take, drop, take-length_append,
  drop-length_append, ltb, leb, ◌==◌,
}
use mobfs.Error.{Done, ok}
use mobfs.Protocol.{Bytes}
use mobfs.Crypto.{
  Aead, SecureStream, TcpStream, from_be_bytes, max_frame, next_counter, nonce, read_body,
  read_encrypted, read_raw, tag_len, to_be_bytes, write_encrypted, decrypted,
}
use mobfs.Crypto.Nonce.{from_be_bytes-to_be_bytes, length-to_be_bytes}

take_of : (n : ℕ) (xs ys : Bytes) → length xs ≡ n → take n (xs ++ ys) ≡ xs
take_of n xs ys h = subst (λ k. take k (xs ++ ys) ≡ xs) h (take-length_append xs ys)

drop_of : (n : ℕ) (xs ys : Bytes) → length xs ≡ n → drop n (xs ++ ys) ≡ ys
drop_of n xs ys h = subst (λ k. drop k (xs ++ ys) ≡ ys) h (drop-length_append xs ys)

abbrev pub with_incoming : TcpStream → Bytes → TcpStream
with_incoming s bytes = record s { incoming = bytes }

read_body_lem :
    (s : TcpStream) (body rest : Bytes)
    → length body ≤ max_frame
    → read_body (with_incoming s (body ++ rest)) (length body) ≡ (ok body, with_incoming s rest)
read_body_lem s body rest h =
    let fits : ltb max_frame (length body) ≡ false = ground (arith, h) in
    let whole : (length body == length body) ≡ true = ground arith in
    rw (take-length_append body rest, drop-length_append body rest, fits, whole)

-- A frame is read as it was written.
pub read_raw_lem :
    (s : TcpStream) (body rest : Bytes)
    → length body ≤ max_frame
    → read_raw (with_incoming s (to_be_bytes 4 (length body) ++ (body ++ rest)))
      ≡ (ok body, with_incoming s rest)
unfolding read_raw
read_raw_lem s body rest h =
    let header = to_be_bytes 4 (length body) in
    let four : length header ≡ 4 = length-to_be_bytes 4 (length body) in
    let long : ltb (length (header ++ (body ++ rest))) 4 ≡ false =
      ground (arith, length-append header (body ++ rest), four) in
    let len : from_be_bytes 0 header ≡ length body =
      from_be_bytes-to_be_bytes 4 (length body) (omega (arith, h)) in
    rw (long, take_of 4 header (body ++ rest) four, drop_of 4 header (body ++ rest) four, len)
      (read_body_lem s body rest h)

-- The two ends are in step: what one seals next the other opens next.
abbrev pub InStep : SecureStream → SecureStream → Type 0
InStep w r = (r.recv_key ≡ w.send_key) × (r.recv_counter ≡ w.send_counter)

-- the reader, when it has read one frame and has these bytes before it
abbrev pub after_frame : SecureStream → Bytes → SecureStream
after_frame r rest = record r {
  stream = with_incoming r.stream rest;
  recv_counter = next_counter r.recv_counter;
}

abbrev pub before_frame : SecureStream → Bytes → SecureStream
before_frame r bytes = record r { stream = with_incoming r.stream bytes }

module _ (cipher : Aead) where
  decrypted_lem :
      (key text tag bytes : Bytes) (counter : ℕ)
      → cipher.seal key (nonce counter) bytes ≡ some (text, tag)
      → decrypted cipher key counter (ok (text ++ tag)) ≡ ok bytes
  decrypted_lem key text tag bytes counter h =
      let tag_length : length tag ≡ tag_len =
        (cipher.length-seal key (nonce counter) bytes text tag h).1 in
      let total : length (text ++ tag) ≡ length text + tag_len =
        omega (arith, length-append text tag, tag_length) in
      let long : ltb (length (text ++ tag)) tag_len ≡ false = ground (arith, total) in
      let start : length text ≡ length (text ++ tag) - tag_len = omega (arith, total) in
      rw (
        long,
        take_of (length (text ++ tag) - tag_len) text tag start,
        drop_of (length (text ++ tag) - tag_len) text tag start,
        cipher.open-seal key (nonce counter) bytes text tag h,
      )

  abbrev after_write : SecureStream → Bytes → SecureStream
  after_write w frame = record w {
    stream = record w.stream { outgoing = w.stream.outgoing ++ frame };
    send_counter = next_counter w.send_counter;
  }

  -- the frame of a sealed text
  abbrev frame_of : Bytes → Bytes → Bytes → Bytes
  frame_of bytes text tag = to_be_bytes 4 (length bytes + tag_len) ++ (text ++ tag)

  write_encrypted_lem :
      (w : SecureStream) (bytes text tag : Bytes)
      → cipher.seal w.send_key (nonce w.send_counter) bytes ≡ some (text, tag)
      → length bytes + tag_len ≤ max_frame
      → (write_encrypted cipher w bytes).0 ≡ ok tt
      → write_encrypted cipher w bytes ≡ (ok tt, after_write w (frame_of bytes text tag))
  unfolding write_encrypted
  write_encrypted_lem w bytes text tag e fits sent =
      let small : leb (2 ^ 32) (length bytes + tag_len) ≡ false = ground (arith, fits) in
      elim (Bool-cases w.stream.closed) [
        | inl c ↦ absurd (cc (rw (small, e, c) at sent))
        | inr c ↦ rw (small, e, c)
      ]

  no_seal :
      (w : SecureStream) (bytes : Bytes)
      → cipher.seal w.send_key (nonce w.send_counter) bytes ≡ none
      → length bytes + tag_len ≤ max_frame
      → (write_encrypted cipher w bytes).0 ≢ ok tt
  unfolding write_encrypted
  no_seal w bytes e fits sent =
      let small : leb (2 ^ 32) (length bytes + tag_len) ≡ false = ground (arith, fits) in
      absurd (cc (rw (small, e) at sent))

  read_encrypted_lem :
      (r : SecureStream) (bytes text tag rest : Bytes)
      → cipher.seal r.recv_key (nonce r.recv_counter) bytes ≡ some (text, tag)
      → length bytes + tag_len ≤ max_frame
      → read_encrypted cipher (before_frame r (frame_of bytes text tag ++ rest))
        ≡ (ok bytes, after_frame r rest)
  unfolding read_encrypted
  read_encrypted_lem r bytes text tag rest e fits =
      let (text_length, tag_length) =
        cipher.length-seal r.recv_key (nonce r.recv_counter) bytes text tag e in
      let total : length bytes + tag_len ≡ length (text ++ tag) =
        omega (arith, length-append text tag, text_length, tag_length) in
      let small : length (text ++ tag) ≤ max_frame = omega (arith, total, fits) in
      rw (
        total,
        append_assoc (to_be_bytes 4 (length (text ++ tag))) (text ++ tag) rest,
        read_raw_lem r.stream (text ++ tag) rest small,
        decrypted_lem r.recv_key text tag bytes r.recv_counter e,
      )

  -- What a successful write sends is one frame behind what was sent before, and the other end, when
  -- it is in step and the frame is not too large, reads the bytes back from it and stays in step.
  pub read_encrypted-write_encrypted :
      (w r : SecureStream) (bytes : Bytes)
      → (write_encrypted cipher w bytes).0 ≡ ok tt
      → InStep w r
      → length bytes + tag_len ≤ max_frame
      → (frame : Bytes) × ((write_encrypted cipher w bytes).1.stream.outgoing
          ≡ w.stream.outgoing ++ frame)
        × ((rest : Bytes)
            → read_encrypted cipher (before_frame r (frame ++ rest))
              ≡ (ok bytes, after_frame r rest))
        × ((rest : Bytes) → InStep (write_encrypted cipher w bytes).1 (after_frame r rest))
  read_encrypted-write_encrypted w r bytes sent step fits =
      elim (Option-cases (cipher.seal w.send_key (nonce w.send_counter) bytes)) [
        | inl e ↦ absurd (no_seal w bytes e fits sent)
        | inr ((text, tag), e) ↦
            let written = write_encrypted_lem w bytes text tag e fits sent in
            let same : cipher.seal r.recv_key (nonce r.recv_counter) bytes ≡ some (text, tag) =
              rw (step.0, step.1) e in
            (
              frame_of bytes text tag,
              ap (λ (p : Done × SecureStream). p.1.stream.outgoing) written,
              λ rest. read_encrypted_lem r bytes text tag rest same fits,
              λ rest. rw written (step.0, ap next_counter step.1),
            )
      ]

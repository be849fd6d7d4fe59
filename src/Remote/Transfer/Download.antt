-- ===== src/Remote/Transfer/Download.antt =====
-- What the loop of download_file of src/remote.rs leaves in the temporary file.
use mobfs.Base.{
  ℕ, zero, suc, ◌+◌, ◌*◌, ◌<◌, ◌≤◌, min, ◌≡◌, refl, ap, ◌∙◌, subst, Bool, true, false, ◌||◌, Option,
  some, List, [], ◌∷◌, ◌++◌, ◌==◌, ltb, length, take, drop, length-take, length-drop, arith,
  Bool-cases, inl, inr,
}
use mobfs.Base.Str.{Str}
use mobfs.Error.{ok}
use mobfs.Paths.{FilePath}
use mobfs.Protocol.{Bytes, Request, Response}
use mobfs.Disk.{Io, Disk}
use mobfs.Remote.{op}
use mobfs.Remote.Wire.{Stream, send}
use mobfs.Remote.Client.{read_file_chunk}
use mobfs.Remote.Transfer.{transfer_chunk_size, download_chunks}

suc_sum : (m n : ℕ) → suc m + n ≡ suc (m + n)
suc_sum m n = omega arith

module _ {ℓ} {A : Type ℓ} where
  take_nil : (n : ℕ) → take {A = A} n [] ≡ []
  take_nil zero = refl
  take_nil (suc n) = refl

  pub take-next : (m n : ℕ) (xs : List A) → take m xs ++ take n (drop m xs) ≡ take (m + n) xs
  take-next zero n xs = ap (λ k. take k xs) (omega arith)
  take-next (suc m) n [] = rw (suc_sum m n) (take_nil n)
  take-next (suc m) n (x ∷ xs) = rw (suc_sum m n) (ap (λ r. x ∷ r) (take-next m n xs))

  pub take_all : (n : ℕ) (xs : List A) → length xs ≤ n → take n xs ≡ xs
  take_all zero [] h = refl
  take_all zero (x ∷ xs) h = absurd (omega arith)
  take_all (suc n) [] h = refl
  take_all (suc n) (x ∷ xs) h = ap (λ r. x ∷ r) (take_all n xs (omega arith))

-- what the daemon answers to a request for a chunk of a file that holds these bytes
abbrev pub chunk : Bytes → ℕ → Bytes
chunk bytes offset = take transfer_chunk_size (drop offset bytes)

abbrev pub is_last : Bytes → Bool
is_last part = (length part == 0) || ltb (length part) (min transfer_chunk_size transfer_chunk_size)

last_length :
    (bytes : Bytes) (offset : ℕ)
    → is_last (chunk bytes offset) ≡ true
    → length bytes ≤ offset + transfer_chunk_size
last_length bytes offset h =
    let len = length-take transfer_chunk_size (drop offset bytes) in
    let left = length-drop offset bytes in ground arith

not_short : (n size : ℕ) → ((n == 0) || ltb n (min size size)) ≡ false → (size ≤ n) × (0 < n)
not_short n size h = (ground arith, ground arith)

full_length :
    (bytes : Bytes) (offset : ℕ)
    → is_last (chunk bytes offset) ≡ false
    → (length (chunk bytes offset) ≡ transfer_chunk_size)
      × (offset + transfer_chunk_size ≤ length bytes)
full_length bytes offset h =
    let len = length-take transfer_chunk_size (drop offset bytes) in
    let left = length-drop offset bytes in
    let long = not_short (length (chunk bytes offset)) transfer_chunk_size h in
    (omega (arith, len, left, long.0, long.1), omega (arith, len, left, long.0, long.1))

module _ {W : Type 0} (disk : Disk W) (stream : Stream W) (reconnect : Io W Unit)
    (retries op_nonce : ℕ) (digest : Str → Str) (decimal : ℕ → Str) (root : Str) (ignore : List Str)
    (contents : W → FilePath → Option Bytes) (rel : Str) (temp : FilePath) (bytes : Bytes) where
  abbrev pub asked : ℕ → Io W Response
  asked offset =
      op retries reconnect
        (send stream (Request.read_file_chunk root rel offset transfer_chunk_size))

  -- The remote file stays as it is, each chunk arrives in the end, and the local disk has room.
  pub record Served : Type 0 where
    pub answered :
        (offset : ℕ) (w : W)
        → (asked offset w).0
          ≡ ok (Response.file_chunk (chunk bytes offset) (is_last (chunk bytes offset)))
    pub keeps : (offset : ℕ) (w : W) → contents (asked offset w).1 temp ≡ contents w temp
    pub written :
        (old part : Bytes) (w : W)
        → contents w temp ≡ some old
        → (disk.overwrite_at temp (length old) part w).0 ≡ ok tt
    pub appends :
        (old part : Bytes) (w : W)
        → contents w temp ≡ some old
        → contents (disk.overwrite_at temp (length old) part w).1 temp ≡ some (old ++ part)

  module _ (served : Served) where
    -- Rounds enough for the bytes that are left and for one more chunk are enough: the loop ends,
    -- and the temporary file, which held the bytes before the offset, holds them all.
    pub download_chunks_lem :
        (rounds offset n : ℕ) (w : W)
        → offset ≤ length bytes
        → length bytes < offset + rounds * transfer_chunk_size
        → contents w temp ≡ some (take offset bytes)
        → ((download_chunks disk stream reconnect retries op_nonce digest decimal root ignore rounds
              rel temp offset
              (n, w)).0
            ≡ ok tt)
          × (contents
                (download_chunks disk stream reconnect retries op_nonce digest decimal root ignore
                  rounds rel temp offset
                  (n, w)).1.1
                temp
              ≡ some bytes)
    unfolding download_chunks read_file_chunk
    download_chunks_lem zero offset n w inside enough held = absurd (omega arith)
    download_chunks_lem (suc rounds) offset n w inside enough held =
        let part = chunk bytes offset in
        let len = length-take offset bytes in
        let w1 = (asked offset w).1 in
        let held1 = served.keeps offset w ∙ held in
        let here : length (take offset bytes) ≡ offset = omega (arith, len) in
        let w2 = (disk.overwrite_at temp offset part w1).1 in
        let done : (disk.overwrite_at temp offset part w1).0 ≡ ok tt =
          subst (λ k. (disk.overwrite_at temp k part w1).0 ≡ ok tt) here
            (served.written (take offset bytes) part w1 held1) in
        let holds : contents w2 temp ≡ some (take (offset + transfer_chunk_size) bytes) =
          subst
            (λ k.
              contents (disk.overwrite_at temp k part w1).1 temp ≡ some (take offset bytes ++ part))
            here (served.appends (take offset bytes) part w1 held1)
          ∙ ap some (take-next offset transfer_chunk_size bytes) in
        elim (Bool-cases (is_last part)) [
          | inl h ↦
              rw (served.answered offset w, h, done)
                (
                  refl,
                  holds
                      ∙ ap some (
                          take_all (offset + transfer_chunk_size) bytes
                            (last_length bytes offset h)),
                )
          | inr h ↦
              let (size, fits) = full_length bytes offset h in
              rw (served.answered offset w, h, done, size)
                (download_chunks_lem rounds (offset + transfer_chunk_size) n w2 fits (omega arith)
                  holds)
        ]

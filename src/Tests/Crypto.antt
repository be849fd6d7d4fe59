-- ===== src/Tests/Crypto.antt =====
-- The channel: runs and the theorems with a cipher that changes nothing and adds a tag, and with
-- toy primitives for the handshake.
use mobfs.Base.{
  ℕ, ◌≡◌, ◌≢◌, refl, sym, ap, false, Option, none, some, [], ◌∷◌, ◌++◌, arith, length,
  if◌then◌else◌,
}
use mobfs.Base.Str.{Str, codes, str_eq, str_eq_iff}
use mobfs.Error.{ok, err}
use mobfs.Protocol.{Bytes}
use mobfs.Crypto.{Aead, SecureStream, TcpStream, new_stream, nonce, read_encrypted, write_encrypted}
use mobfs.Crypto.Nonce.{nonce-injective}
use mobfs.Crypto.Frames.{InStep, after_frame, before_frame, read_encrypted-write_encrypted}
use mobfs.Crypto.Handshake.{Primitives, StreamKeys, handshake, not_authentic}
use mobfs.Crypto.Handshake.Agreement.{handshake_agrees, handshake_refused}

abbrev tag : Bytes
tag =
    1
    ∷ (2
        ∷ (3
            ∷ (4
                ∷ (5
                    ∷ (6
                        ∷ (7 ∷ (8 ∷ (9 ∷ (10 ∷ (11 ∷ (12 ∷ (13 ∷ (14 ∷ (15 ∷ (16 ∷ [])))))))))))))))

abbrev plain_seal : Bytes → Bytes → Bytes → Option (Bytes × Bytes)
plain_seal key nonce bytes = some (bytes, tag)

abbrev plain_open : Bytes → Bytes → Bytes → Bytes → Option Bytes
plain_open key nonce text t = if str_eq t tag then some text else none

plain_open-seal :
    (key nonce bytes text t : Bytes)
    → plain_seal key nonce bytes ≡ some (text, t)
    → plain_open key nonce text t ≡ some bytes
plain_open-seal key nonce bytes text t h = ground (arith, h, str_eq_iff t tag)

plain_length :
    (key nonce bytes text t : Bytes)
    → plain_seal key nonce bytes ≡ some (text, t)
    → (length text ≡ length bytes) × (length t ≡ 16)
plain_length key nonce bytes text t h =
    let same : bytes ≡ text = cc in
    let tags : tag ≡ t = cc in (ap length (sym same), ap length (sym tags))

abbrev plain : Aead
plain = record {
  seal = plain_seal;
  open_sealed = plain_open;
  open-seal = plain_open-seal;
  length-seal = plain_length;
}

abbrev socket : TcpStream
socket = record { incoming = []; outgoing = []; closed = false }

abbrev writer : SecureStream
writer = new_stream socket (1 ∷ []) (2 ∷ [])

abbrev reader : SecureStream
reader = new_stream socket (2 ∷ []) (1 ∷ [])

abbrev hello : Bytes
hello = codes "hello"

written : (write_encrypted plain writer hello).0 ≡ ok tt
unfolding write_encrypted
written = refl

read_encrypted-write_encrypted_example :
    (frame : Bytes) × ((write_encrypted plain writer hello).1.stream.outgoing
      ≡ writer.stream.outgoing ++ frame)
    × ((rest : Bytes)
        → read_encrypted plain (before_frame reader (frame ++ rest))
          ≡ (ok hello, after_frame reader rest))
    × ((rest : Bytes) → InStep (write_encrypted plain writer hello).1 (after_frame reader rest))
read_encrypted-write_encrypted_example =
    read_encrypted-write_encrypted plain writer reader hello written (refl, refl) (omega arith)

abbrev three : ℕ
three = 3

same_nonce : three ≡ three
same_nonce = nonce-injective three three (omega arith) (omega arith) refl

toy_expand_some : (token : Str) (secret info : Bytes) → some (token ++ info) ≢ none
toy_expand_some token secret info e = cc

toy_mac_some : (token : Str) (message : Bytes) → some (token ++ message) ≢ none
toy_mac_some token message e = cc

abbrev toy : Primitives
toy = record {
  public_of = λ secret. secret;
  diffie_hellman = λ a b. [];
  expand = λ token secret info. some (token ++ info);
  mac = λ token message. some (token ++ message);
  shared = λ a b. refl;
  expand_some = toy_expand_some;
  mac_some = toy_mac_some;
}

handshake_agrees_example :
    (client server : StreamKeys) × (handshake toy (codes "tok") (codes "tok") (7 ∷ []) (8 ∷ [])
      ≡ ok (client, server))
    × (client.send_key ≡ server.recv_key)
    × (client.recv_key ≡ server.send_key)
handshake_agrees_example = handshake_agrees toy (codes "tok") (7 ∷ []) (8 ∷ [])

abbrev first_byte : Option Bytes → ℕ
first_byte (some (b ∷ bs)) = b
first_byte _ = 9

tokens_differ : (message : Bytes) → toy.mac (0 ∷ []) message ≢ toy.mac (1 ∷ []) message
tokens_differ message e = let bytes : 0 ≡ 1 = ap first_byte e in omega (arith, bytes)

handshake_refused_instance : handshake toy (0 ∷ []) (1 ∷ []) (7 ∷ []) (8 ∷ []) ≡ err not_authentic
handshake_refused_instance = handshake_refused toy (0 ∷ []) (1 ∷ []) (7 ∷ []) (8 ∷ []) tokens_differ

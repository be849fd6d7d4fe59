-- ===== src/Crypto/Handshake.antt =====
-- SecureStream::client and SecureStream::server of src/crypto.rs: the handshake that sets up the
-- keys. The curve, the key derivation and the authentication code are third-party crates', and
-- parameters. Each side is one function per message that it receives.
pub mod Agreement
use mobfs.Base.{◌≡◌, ◌≢◌, Bool, true, false, not, Option, none, some, ◌++◌, if◌then◌else◌}
use mobfs.Base.Str.{Str, codes, str_eq}
use mobfs.Error.{Result, ok, err, MobfsError, remote, ◌>>=◌}
use mobfs.Protocol.{Bytes}

-- X25519, HKDF with SHA-256 of the token as its salt, and HMAC. The two secrets of an exchange give
-- the same shared one whichever side combines them; HKDF gives keys of 32 bytes and HMAC takes
-- keys of every length, so neither fails here.
pub record Primitives : Type 0 where
  pub public_of : Bytes → Bytes
  pub diffie_hellman : Bytes → Bytes → Bytes
  pub expand : Str → Bytes → Bytes → Option Bytes
  pub mac : Str → Bytes → Option Bytes
  pub shared : (a b : Bytes) → diffie_hellman a (public_of b) ≡ diffie_hellman b (public_of a)
  pub expand_some : (token : Str) (secret info : Bytes) → expand token secret info ≢ none
  pub mac_some : (token : Str) (message : Bytes) → mac token message ≢ none

pub data HandshakeFrame : Type 0 where
  client_hello : Bytes → HandshakeFrame
  server_hello : Bytes → Bytes → HandshakeFrame
  client_auth : Bytes → HandshakeFrame

pub record DirectionKeys : Type 0 where
  pub client_to_server : Bytes
  pub server_to_client : Bytes

-- the keys that a side sends and receives with
pub record StreamKeys : Type 0 where
  pub send_key : Bytes
  pub recv_key : Bytes

abbrev pub or_remote {ℓ} : {A : Type ℓ} → Str → Option A → Result A
or_remote message none = err (remote message)
or_remote message (some a) = ok a

abbrev pub invalid_handshake : MobfsError
invalid_handshake = remote (codes "invalid encrypted handshake")

abbrev pub not_authentic : MobfsError
not_authentic = remote (codes "encrypted handshake authentication failed")

module _ (p : Primitives) where
  abbrev pub expand_key : Str → Bytes → Bytes → Result Bytes
  expand_key token secret info =
      or_remote (codes "encrypted key derivation failed") (p.expand token secret info)

  unfoldable pub derive_keys : Bytes → Str → Bytes → Bytes → Result DirectionKeys
  derive_keys secret token client_public server_public =
      let info = codes "mobfs-e2ee-v2" ++ (client_public ++ server_public) in
      expand_key token secret (info ++ codes "client-to-server") >>= λ to_server.
      expand_key token secret (info ++ codes "server-to-client") >>= λ to_client.
      ok (record { client_to_server = to_server; server_to_client = to_client })

  unfoldable pub auth_tag : Str → Str → Bytes → Bytes → Result Bytes
  auth_tag token label client_public server_public =
      or_remote (codes "encrypted authentication failed")
        (p.mac token (codes "mobfs-e2ee-auth-v1" ++ (label ++ (client_public ++ server_public))))

  -- the first message of a client with this secret
  abbrev pub client_start : Bytes → HandshakeFrame
  client_start secret = client_hello (p.public_of secret)

  -- the client's answer to the server's message, and its keys
  unfoldable pub client_finish : Str → Bytes → HandshakeFrame → Result (HandshakeFrame × StreamKeys)
  unfolding derive_keys auth_tag
  client_finish token secret (server_hello server_public server_auth) =
      let public = p.public_of secret in
      derive_keys (p.diffie_hellman secret server_public) token public server_public >>= λ keys.
      auth_tag token (codes "server") public server_public >>= λ expected.
      if not (str_eq server_auth expected)
      then err not_authentic
      else auth_tag token (codes "client") public server_public >>= λ auth. ok (
        client_auth auth,
        record { send_key = keys.client_to_server; recv_key = keys.server_to_client },
      )
  client_finish token secret (client_hello _) = err invalid_handshake
  client_finish token secret (client_auth _) = err invalid_handshake

  -- what the server keeps until the client has authenticated itself
  pub record Pending : Type 0 where
    pub client_public : Bytes
    pub server_public : Bytes
    pub keys : DirectionKeys

  unfoldable pub server_start : Str → Bytes → HandshakeFrame → Result (HandshakeFrame × Pending)
  unfolding derive_keys auth_tag
  server_start token secret (client_hello client_public) =
      let public = p.public_of secret in
      derive_keys (p.diffie_hellman secret client_public) token client_public public >>= λ keys.
      auth_tag token (codes "server") client_public public >>= λ auth. ok (
        server_hello public auth,
        record { client_public = client_public; server_public = public; keys = keys },
      )
  server_start token secret (server_hello _ _) = err invalid_handshake
  server_start token secret (client_auth _) = err invalid_handshake

  unfoldable pub server_finish : Str → Pending → HandshakeFrame → Result StreamKeys
  unfolding auth_tag
  server_finish token pending (client_auth auth) =
      auth_tag token (codes "client") pending.client_public pending.server_public >>= λ expected.
      if not (str_eq auth expected)
      then err not_authentic
      else ok (record {
        send_key = pending.keys.server_to_client;
        recv_key = pending.keys.client_to_server;
      })
  server_finish token pending (client_hello _) = err invalid_handshake
  server_finish token pending (server_hello _ _) = err invalid_handshake

  -- A handshake over a channel that delivers each message: the keys of the client and the server.
  unfoldable pub handshake : Str → Str → Bytes → Bytes → Result (StreamKeys × StreamKeys)
  unfolding client_finish server_start server_finish
  handshake client_token server_token client_secret server_secret =
      server_start server_token server_secret (client_start client_secret) >>= λ started.
      client_finish client_token client_secret started.0 >>= λ finished.
      server_finish server_token started.1 finished.0 >>= λ keys. ok (finished.1, keys)

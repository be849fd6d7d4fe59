-- ===== src/Crypto/Handshake/Agreement.antt =====
-- src/crypto.rs: the two sides of a handshake agree on their keys, or there is no channel.
use mobfs.Base.{
  ◌≡◌, ◌≢◌, refl, sym, ap, ◌∙◌, inl, inr, true, false, Option, none, some, ◌++◌, arith, Bool-cases,
  if◌then◌else◌,
}
use mobfs.Base.Str.{Str, codes, str_eq, str_eq_iff}
use mobfs.Error.{ok, err}
use mobfs.Protocol.{Bytes}
use mobfs.Crypto.Handshake.{
  Primitives, DirectionKeys, StreamKeys, handshake, derive_keys, auth_tag, client_finish,
  server_start, server_finish, not_authentic, or_remote, Pending, client_hello, server_hello,
  client_auth,
}

module _ (p : Primitives) where
  some_of {ℓ} : {A : Type ℓ} (o : Option A) → o ≢ none → (a : A) × (o ≡ some a)
  some_of none h = absurd (h refl)
  some_of (some a) h = (a, refl)

  derived :
      (secret : Bytes) (token : Str) (client_public server_public : Bytes)
      → (keys : DirectionKeys) × (derive_keys p secret token client_public server_public ≡ ok keys)
  unfolding derive_keys
  derived secret token client_public server_public =
      let info = codes "mobfs-e2ee-v2" ++ (client_public ++ server_public) in
      let (a, e) = some_of _ (p.expand_some token secret (info ++ codes "client-to-server")) in
      let (b, f) = some_of _ (p.expand_some token secret (info ++ codes "server-to-client")) in
      (record { client_to_server = a; server_to_client = b }, rw (e, f))

  tagged :
      (token label : Str) (client_public server_public : Bytes)
      → (tag : Bytes) × (auth_tag p token label client_public server_public ≡ ok tag)
  unfolding auth_tag
  tagged token label client_public server_public =
      let (tag, e) = some_of _ (
        p.mac_some token
          (codes "mobfs-e2ee-auth-v1" ++ (label ++ (client_public ++ server_public)))) in
      (tag, rw e)

  same_bytes : (b : Bytes) → str_eq b b ≡ true
  same_bytes b = (str_eq_iff b b).1 refl

  -- each side's step, when the message before it is what the other side sends
  server_start_lem :
      (token : Str) (secret client_public : Bytes) (keys : DirectionKeys) (tag : Bytes)
      → derive_keys p
          (p.diffie_hellman secret client_public)
          token
          client_public
          (p.public_of secret)
        ≡ ok keys
      → auth_tag p token (codes "server") client_public (p.public_of secret) ≡ ok tag
      → server_start p token secret (client_hello client_public)
        ≡ ok (
          server_hello (p.public_of secret) tag,
          record { client_public = client_public; server_public = p.public_of secret; keys = keys },
        )
  unfolding server_start
  server_start_lem token secret client_public keys tag e f = rw (e, f)

  client_finish_lem :
      (token : Str) (secret server_public : Bytes) (keys : DirectionKeys)
      (tag expected auth : Bytes)
      → derive_keys p
          (p.diffie_hellman secret server_public)
          token
          (p.public_of secret)
          server_public
        ≡ ok keys
      → auth_tag p token (codes "server") (p.public_of secret) server_public ≡ ok expected
      → auth_tag p token (codes "client") (p.public_of secret) server_public ≡ ok auth
      → client_finish p token secret (server_hello server_public tag) ≡ (
          if str_eq tag expected
          then ok (
            client_auth auth,
            record { send_key = keys.client_to_server; recv_key = keys.server_to_client },
          )
          else err not_authentic)
  unfolding client_finish
  client_finish_lem token secret server_public keys tag expected auth e f g =
      elim (Bool-cases (str_eq tag expected)) [ inl h ↦ rw (e, f, h, g) | inr h ↦ rw (e, f, h) ]

  server_finish_lem :
      (token : Str) (pending : Pending p) (auth : Bytes)
      → auth_tag p token (codes "client") pending.client_public pending.server_public ≡ ok auth
      → server_finish p token pending (client_auth auth)
        ≡ ok (record {
          send_key = pending.keys.server_to_client;
          recv_key = pending.keys.client_to_server;
        })
  unfolding server_finish
  server_finish_lem token pending auth e = rw (e, same_bytes auth)

  -- With the same token on both sides a handshake succeeds, and what one side sends with is what
  -- the other receives with, in both directions.
  pub handshake_agrees :
      (token : Str) (client_secret server_secret : Bytes)
      → (client server : StreamKeys) × (handshake p token token client_secret server_secret
          ≡ ok (client, server))
        × (client.send_key ≡ server.recv_key)
        × (client.recv_key ≡ server.send_key)
  unfolding handshake
  handshake_agrees token a b =
      let cp = p.public_of a in
      let sp = p.public_of b in
      let (keys, e) = derived (p.diffie_hellman a sp) token cp sp in
      let (st, f) = tagged token (codes "server") cp sp in
      let (ct, g) = tagged token (codes "client") cp sp in
      let pending : Pending p = record { client_public = cp; server_public = sp; keys = keys } in
      let started = server_start_lem token b cp keys st (rw (sym (p.shared a b)) e) f in
      let finished = client_finish_lem token a sp keys st st ct e f g in
      (
        record { send_key = keys.client_to_server; recv_key = keys.server_to_client },
        record { send_key = keys.server_to_client; recv_key = keys.client_to_server },
        rw started (rw finished (rw (same_bytes st) (rw (server_finish_lem token pending ct g)))),
        refl,
        refl,
      )

  of_or_remote :
      (message : Str) (o : Option Bytes) (b : Bytes) → or_remote message o ≡ ok b → o ≡ some b
  of_or_remote message none b h = absurd (cc)
  of_or_remote message (some a) b h = ap some (cc)

  apart :
      (client_token server_token : Str) (a b : Bytes)
      → ((message : Bytes) → p.mac client_token message ≢ p.mac server_token message)
      → (tag expected : Bytes)
      → auth_tag p server_token (codes "server") (p.public_of a) (p.public_of b) ≡ ok tag
      → auth_tag p client_token (codes "server") (p.public_of a) (p.public_of b) ≡ ok expected
      → tag ≢ expected
  unfolding auth_tag
  apart client_token server_token a b differ tag expected f g same =
      let message =
        codes "mobfs-e2ee-auth-v1" ++ (codes "server" ++ (p.public_of a ++ p.public_of b)) in
      differ message (
        of_or_remote _ (p.mac client_token message) expected g
        ∙ (ap some (sym same) ∙ sym (of_or_remote _ (p.mac server_token message) tag f)))

  -- If the two tokens give different authentication codes, the client refuses the server.
  pub handshake_refused :
      (client_token server_token : Str) (client_secret server_secret : Bytes)
      → ((message : Bytes) → p.mac client_token message ≢ p.mac server_token message)
      → handshake p client_token server_token client_secret server_secret ≡ err not_authentic
  unfolding handshake
  handshake_refused client_token server_token a b differ =
      let cp = p.public_of a in
      let sp = p.public_of b in
      let (keys, e) = derived (p.diffie_hellman b cp) server_token cp sp in
      let (tag, f) = tagged server_token (codes "server") cp sp in
      let (client_keys, c) = derived (p.diffie_hellman a sp) client_token cp sp in
      let (expected, g) = tagged client_token (codes "server") cp sp in
      let (auth, h) = tagged client_token (codes "client") cp sp in
      let wrong : str_eq tag expected ≡ false = ground (
        arith,
        str_eq_iff tag expected,
        apart client_token server_token a b differ tag expected f g,
      ) in
      rw (server_start_lem server_token b cp keys tag e f)
        (rw (client_finish_lem client_token a sp client_keys tag expected auth c g h) (rw wrong))

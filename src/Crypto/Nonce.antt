-- ===== src/Crypto/Nonce.antt =====
-- src/crypto.rs: numbers as bytes, and the nonces of the frames.
use mobfs.Base.{
  zero, suc, ℕ, ◌+◌, ◌*◌, ◌/◌, ◌%◌, ◌^◌, ◌<◌, ◌≡◌, refl, sym, ap, ◌∙◌, [], ◌∷◌, ◌++◌, arith, length,
  length-append, drop,
}
use mobfs.Protocol.{Bytes}
use mobfs.Crypto.{from_be_bytes, nonce, to_be_bytes}

pub length-to_be_bytes : (w n : ℕ) → length (to_be_bytes w n) ≡ w
unfolding to_be_bytes
length-to_be_bytes zero n = refl
length-to_be_bytes (suc w) n =
    omega (
      arith,
      length-append (to_be_bytes w (n / 256)) (n % 256 ∷ []),
      length-to_be_bytes w (n / 256),
    )

from_be_bytes-append :
    (acc : ℕ) (xs : Bytes) (b : ℕ)
    → from_be_bytes acc (xs ++ (b ∷ [])) ≡ from_be_bytes acc xs * 256 + b
unfolding from_be_bytes
from_be_bytes-append acc [] b = refl
from_be_bytes-append acc (x ∷ xs) b = from_be_bytes-append (acc * 256 + x) xs b

-- the numbers that fit in so many bytes
abbrev pub limit : ℕ → ℕ
limit zero = 1
limit (suc w) = limit w * 256

pub from_be_bytes-to_be_bytes : (w n : ℕ) → n < limit w → from_be_bytes 0 (to_be_bytes w n) ≡ n
unfolding to_be_bytes from_be_bytes
from_be_bytes-to_be_bytes zero n h = omega (arith, h)
from_be_bytes-to_be_bytes (suc w) n h =
    from_be_bytes-append 0 (to_be_bytes w (n / 256)) (n % 256)
    ∙ omega (arith, from_be_bytes-to_be_bytes w (n / 256) (omega (arith, h)))

-- Different counters have different nonces.
pub nonce-injective : (a b : ℕ) → a < 2 ^ 64 → b < 2 ^ 64 → nonce a ≡ nonce b → a ≡ b
unfolding nonce
nonce-injective a b h k e =
    let same : to_be_bytes 8 a ≡ to_be_bytes 8 b = ap (drop 4) e in
    sym (from_be_bytes-to_be_bytes 8 a (omega (arith, h)))
    ∙ ap (from_be_bytes 0) same
    ∙ from_be_bytes-to_be_bytes 8 b (omega (arith, k))

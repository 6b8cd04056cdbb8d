-- ===== src/Crypto.antt =====
-- The hash functions that the code takes from third-party crates: a client has them as a parameter,
-- with the lengths that they document. Bytes are numbers below 256.
use sovereign_ledger.Base.{ℕ, ◌<◌, ◌≡◌, ◌≢◌, List, ◌∷◌, length, All}

abbrev pub Bytes : Type 0
Bytes = List ℕ

abbrev pub IsBytes : Bytes → Type 0
IsBytes = All (λ b. b < 256)

-- `[u8; HASH_SIZE]`.
abbrev pub hash_size : ℕ
hash_size = 32

pub record IsDigest (d : Bytes) : Type 0 where
  pub size : length d ≡ hash_size
  pub bytes : IsBytes d

-- The sha2 crate: `Sha256::digest` of a message.
pub record Sha256 : Type 0 where
  pub digest : Bytes → Bytes
  pub digest-IsDigest : (m : Bytes) → IsDigest (digest m)

-- Two lists of what was hashed, that have at one place two messages that differ and one hash: what a
-- proof of tampering comes down to.
pub data Collides {A : Type 0} (message hash : A → Bytes) : List A → List A → Type 0 where
  here :
      {x y : A} {xs ys : List A}
      → message x ≢ message y
      → hash x ≡ hash y
      → Collides message hash (x ∷ xs) (y ∷ ys)
  later :
      {x y : A} {xs ys : List A}
      → Collides message hash xs ys
      → Collides message hash (x ∷ xs) (y ∷ ys)

-- Messages under SHA-256.
abbrev pub ShaCollides : Sha256 → List Bytes → List Bytes → Type 0
ShaCollides sha = Collides (λ m. m) sha.digest

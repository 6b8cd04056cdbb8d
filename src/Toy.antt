-- ===== src/Toy.antt =====
-- Stand-ins for the third-party functions: cheap, deterministic, with the lengths that the real ones
-- document, and no security.
pub mod Unary
pub mod Serde
pub mod World
pub mod Outside
use sovereign_ledger.Base.{ℕ, ◌+◌, ◌*◌, ◌%◌, ◌^◌, [], ◌∷◌}
use sovereign_ledger.Base.Bytes.{le_bytes, length-le_bytes, le_bytes-IsBytes}
use sovereign_ledger.Crypto.{Bytes, Sha256}

abbrev pub mix : Bytes → ℕ
mix [] = 7
mix (b ∷ bs) = (mix bs * 257 + b + 1) % 2 ^ 256

abbrev pub toy_sha : Sha256
toy_sha = record {
  digest = λ m. le_bytes 32 (mix m);
  digest-IsDigest =
      λ m. record { size = length-le_bytes 32 (mix m); bytes = le_bytes-IsBytes 32 (mix m) };
}

-- ===== src/Toy.antt =====
-- A concrete hash for the tests: the sum of the bytes, as the last of 32 bytes.
use eth_avm_light_client.Prelude.{ℕ, ◌+◌, ◌%◌, [], ◌∷◌, ◌++◌, replicate, refl}
use eth_avm_light_client.Avm.{Bytes, Hashes}

abbrev byte_sum : Bytes → ℕ
byte_sum [] = 0
byte_sum (b ∷ bs) = b + byte_sum bs

abbrev pub digest : Bytes → Bytes
digest b = replicate 31 0 ++ (byte_sum b % 256 ∷ [])

abbrev pub toy : Hashes
toy = record {
  sha256 = digest;
  keccak256 = digest;
  length-sha256 = λ b. refl;
  length-keccak256 = λ b. refl;
}

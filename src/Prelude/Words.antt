-- ===== src/Prelude/Words.antt =====
-- C words as native numbers on a little-endian host: their bytes in memory, and the functions of
-- arpa/inet.h that swap them.
use Prim.Native.Nat.{ℕ, ◌+◌, ◌*◌, ◌/◌, ◌%◌, ◌<◌}
use mathlib.Core.Path.{◌≡◌}
use mathlib.Core.List.{List, [], ◌∷◌}
use native.Mathlib.Omega.{arith}

abbrev pub IsU8 : ℕ → Type 0
IsU8 x = x < 256

abbrev pub IsU16 : ℕ → Type 0
IsU16 x = x < 65536

abbrev pub IsU32 : ℕ → Type 0
IsU32 x = x < 4294967296

-- The bytes of a uint16_t and of a uint32_t as `memcpy` from the variable finds them.
abbrev pub bytes16 : ℕ → List ℕ
bytes16 x = x % 256 ∷ x / 256 % 256 ∷ []

abbrev pub bytes32 : ℕ → List ℕ
bytes32 x = x % 256 ∷ x / 256 % 256 ∷ x / 65536 % 256 ∷ x / 16777216 % 256 ∷ []

-- The words that such bytes make.
abbrev pub word16 : ℕ → ℕ → ℕ
word16 a b = a + 256 * b

abbrev pub word32 : ℕ → ℕ → ℕ → ℕ → ℕ
word32 a b c d = a + 256 * b + 65536 * c + 16777216 * d

-- `htons` and `ntohs` are one function, and so are `htonl` and `ntohl`.
abbrev pub htons : ℕ → ℕ
htons x = word16 (x / 256 % 256) (x % 256)

abbrev pub htonl : ℕ → ℕ
htonl x = word32 (x / 16777216 % 256) (x / 65536 % 256) (x / 256 % 256) (x % 256)

pub htons-htons : (x : ℕ) → IsU16 x → htons (htons x) ≡ x
htons-htons x h = omega arith

pub word32-bytes32 :
    (x : ℕ) → IsU32 x → word32 (x % 256) (x / 256 % 256) (x / 65536 % 256) (x / 16777216 % 256) ≡ x
word32-bytes32 x h = omega arith

pub htonl-IsU32 : (x : ℕ) → IsU32 (htonl x)
htonl-IsU32 x = omega arith

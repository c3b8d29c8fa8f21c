-- ===== src/Platform.antt =====
-- What the program takes from zlib (`crc32`) and from the allocator.
use lingi1341_projet.Prelude.{ℕ, ◌≡◌, Bool, List, []}

-- `crc32 c bs` is `crc32(c, bs, n)` on `n` bytes, and `crc32_null` is `crc32(0L, Z_NULL, 0)`.
pub record Zlib : Type 0 where
  pub crc32 : ℕ → List ℕ → ℕ
  pub crc32_null : ℕ

-- What zlib documents and the program relies on: the initial value is 0, and no byte leaves a
-- checksum as it is.
pub record IsZlib (z : Zlib) : Type 0 where
  pub null_zero : z.crc32_null ≡ 0
  pub empty_same : (c : ℕ) → z.crc32 c [] ≡ c

-- Whether `malloc` and `calloc` give memory to the calls that `pkt_decode` makes.
pub record Alloc : Type 0 where
  pub temporary : Bool
  pub payload : Bool

-- ===== src/Words.antt =====
-- Fixed-width integers on the wire: `encoding/binary` and the XDR form of a uint32.
use go_nfs.Base.{ℕ, ◌+◌, ◌*◌, ◌/◌, ◌%◌, ◌^◌, ◌<◌, ◌≡◌, Option, none, some, List, [], ◌∷◌, arith}

abbrev pub u32 : ℕ → ℕ
u32 n = n % 2 ^ 32

abbrev pub u64 : ℕ → ℕ
u64 n = n % 2 ^ 64

-- binary.BigEndian.PutUint32
unfoldable pub put_be32 : ℕ → List ℕ
put_be32 n = (n / 2 ^ 24 % 256) ∷ (n / 2 ^ 16 % 256) ∷ (n / 2 ^ 8 % 256) ∷ (n % 256) ∷ []

-- binary.LittleEndian.PutUint32
unfoldable pub put_le32 : ℕ → List ℕ
put_le32 n = (n % 256) ∷ (n / 2 ^ 8 % 256) ∷ (n / 2 ^ 16 % 256) ∷ (n / 2 ^ 24 % 256) ∷ []

-- What an XDR reader makes of the first four bytes (RFC 4506, 4.2: the most significant byte is
-- first), and what is left.
unfoldable pub get_be32 : List ℕ → Option (ℕ × List ℕ)
get_be32 (a ∷ b ∷ c ∷ d ∷ rest) = some (a * 2 ^ 24 + b * 2 ^ 16 + c * 2 ^ 8 + d, rest)
get_be32 _ = none

pub get_be32-put_be32 : (n : ℕ) → n < 2 ^ 32 → get_be32 (put_be32 n) ≡ some (n, [])
unfolding get_be32 put_be32
get_be32-put_be32 n h = ground arith

-- ===== src/Base/Bytes.antt =====
-- Byte lists: `encoding/binary`'s LittleEndian.PutUint32 and Uint32, and slices.
use Prim.Native.Nat.{ℕ, ◌+◌, ◌-◌, ◌*◌, ◌/◌, ◌%◌, ◌^◌, ◌<◌}
use mathlib.Core.Path.{◌≡◌}
use mathlib.Core.List.{List, [], ◌∷◌, ◌++◌}
use native.Mathlib.Omega.{arith}
use qdp.Base.Lists.{take, drop, get_or, All}

abbrev pub IsByte : ℕ → Type 0
IsByte b = b < 256

abbrev pub IsBytes : List ℕ → Type 0
IsBytes = All IsByte

abbrev pub IsU32 : ℕ → Type 0
IsU32 v = v < 2 ^ 32

-- binary.LittleEndian.PutUint32: the four bytes of `v`.
abbrev pub put_u32 : ℕ → List ℕ
put_u32 v = (v % 256) ∷ (v / 256 % 256) ∷ (v / 65536 % 256) ∷ (v / 16777216 % 256) ∷ []

-- binary.LittleEndian.Uint32: the number in the first four bytes.
abbrev pub get_u32 : List ℕ → ℕ
get_u32 bs = get_or bs 0 0 + 256 * get_or bs 1 0 + 65536 * get_or bs 2 0 + 16777216 * get_or bs 3 0

-- data[from:to]
abbrev pub slice : List ℕ → ℕ → ℕ → List ℕ
slice bs from to = take (to - from) (drop from bs)

pub get_u32-put_u32 : (v : ℕ) (rest : List ℕ) → IsU32 v → get_u32 (put_u32 v ++ rest) ≡ v
get_u32-put_u32 v rest h = omega arith

pub put_u32-IsBytes : (v : ℕ) → IsBytes (put_u32 v)
put_u32-IsBytes v = omega arith

pub get_u32-IsU32 : (bs : List ℕ) → IsBytes bs → IsU32 (get_u32 bs)
get_u32-IsU32 [] h = omega arith
get_u32-IsU32 (a ∷ []) h = omega arith
get_u32-IsU32 (a ∷ b ∷ []) h = omega arith
get_u32-IsU32 (a ∷ b ∷ c ∷ []) h = omega arith
get_u32-IsU32 (a ∷ b ∷ c ∷ d ∷ bs) h = omega arith

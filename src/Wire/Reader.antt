-- ===== src/Wire/Reader.antt =====
-- `Reader` of spa-common/src/lib.rs: a forward-only reader, every read bounds-checked.
use spa_device.Prelude.{
  ℕ, ◌+◌, ◌-◌, ◌^◌, Bool, List, ltb, leb, if◌then◌else◌, length, drop, get_or, Option, none, some,
  [], ◌∷◌, Result, ok, err, ◌>>=◌, ok_or,
}
use spa_device.Prelude as Prelude
use spa_device.Prelude.Bytes.{from_be_bytes}
use spa_device.Wire.{WireError, too_short}

pub record Reader : Type 0 where
  pub buf : List ℕ
  pub pos : ℕ

-- `usize::checked_add` on a 64-bit target.
unfoldable pub checked_add : ℕ → ℕ → Option ℕ
checked_add a b = if ltb (a + b) (2 ^ 64) then some (a + b) else none

-- `buf.get(from..to)`.
unfoldable pub get_range : List ℕ → ℕ → ℕ → Option (List ℕ)
get_range buf from to =
    if leb from to
    then if leb to (length buf) then some (Prelude.take (to - from) (drop from buf)) else none
    else none

abbrev pub Read : Type 0 → Type 0
Read A = Reader → Result (A × Reader) WireError

abbrev pub new : List ℕ → Reader
new buf = record { buf = buf; pos = 0 }

unfoldable pub take : ℕ → Read (List ℕ)
unfolding checked_add get_range
take n r = do
  end ← ok_or too_short (checked_add r.pos n)
  slice ← ok_or too_short (get_range r.buf r.pos end)
  ok (slice, record r { pos = end })

-- The slice has the length that was asked for, so the index is in range.
unfoldable pub u8 : Read ℕ
u8 r = do (b, r') ← take 1 r; ok (get_or b 0 0, r')

unfoldable pub u16 : Read ℕ
u16 r = do (b, r') ← take 2 r; ok (from_be_bytes (get_or b 0 0 ∷ get_or b 1 0 ∷ []), r')

unfoldable pub u64 : Read ℕ
u64 r = do (b, r') ← take 8 r; ok (from_be_bytes b, r')

unfoldable pub array : ℕ → Read (List ℕ)
array n r = take n r

abbrev pub remaining : Reader → ℕ
remaining r = length r.buf - r.pos

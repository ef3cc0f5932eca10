-- ===== src/Client/File.antt =====
-- The files and their fields in spa-client/src/lib.rs. Strings are their bytes; a character is
-- white space if it is an ASCII one. `lines`, `split_once`, `trim` and `parse::<u16>` are Rust's.
use spa_device.Prelude.{
  ℕ, ◌+◌, ◌*◌, ◌-◌, ◌^◌, not, ◌==◌, ◌&&◌, ◌||◌, Bool, List, [], ◌∷◌, ◌++◌, length, Option, none,
  some, Result, ok, err, ◌>>=◌, ok_or, leb, if◌then◌else◌, ℕ_eq, List_eq, list_eq,
}
use spa_device.Prelude.Assoc.{HashMap, lookup, insert}
use spa_device.Wire.{Suite, fips, modern}
use spa_device.Crypto.{CryptoError}

pub data Error : Type 0 where
  crypto_error : CryptoError → Error
  io format : Error
  unreachable : List ℕ → Error

unfoldable pub parse_suite : List ℕ → Result Suite Error
parse_suite s =
    if list_eq s (b'f' ∷ b'i' ∷ b'p' ∷ b's' ∷ [])
    then ok fips
    else if list_eq s (b'm' ∷ b'o' ∷ b'd' ∷ b'e' ∷ b'r' ∷ b'n' ∷ [])
    then ok modern
    else err format

-- `str::lines`: the text is cut at each line feed, one carriage return before it goes too, and
-- nothing after the last line feed is no line.
abbrev pub cut_cr : List ℕ → List ℕ
cut_cr [] = []
cut_cr (c ∷ []) = if c == 13 then [] else c ∷ []
cut_cr (c ∷ d ∷ cs) = c ∷ cut_cr (d ∷ cs)

unfoldable pub lines_from : List ℕ → List ℕ → List (List ℕ)
lines_from [] [] = []
lines_from (c ∷ line) [] = (c ∷ line) ∷ []
lines_from line (c ∷ text) =
    let cut = lines_from [] text in
    let on = lines_from (line ++ c ∷ []) text in if c == 10 then cut_cr line ∷ cut else on

unfoldable pub split_once : ℕ → List ℕ → Option (List ℕ × List ℕ)
split_once sep [] = none
split_once sep (c ∷ cs) =
    let rest = split_once sep cs in
    if c == sep
    then some ([], cs)
    else elim rest [ none ↦ none | some (front, back) ↦ some (c ∷ front, back) ]

abbrev pub is_space : ℕ → Bool
is_space c = c == 32 || (leb 9 c && leb c 13)

abbrev pub trim_start : List ℕ → List ℕ
trim_start [] = []
trim_start (c ∷ cs) = let rest = trim_start cs in if is_space c then rest else c ∷ cs

abbrev pub trim_end : List ℕ → List ℕ
trim_end [] = []
trim_end (c ∷ cs) = elim (trim_end cs) [
  | [] ↦ if is_space c then [] else c ∷ []
  | (d ∷ ds) ↦ c ∷ d ∷ ds
]

abbrev pub trim : List ℕ → List ℕ
trim s = trim_end (trim_start s)

abbrev pub Fields : Type 0
Fields = HashMap (List ℕ) (List ℕ)

unfoldable pub read_lines : Fields → List (List ℕ) → Fields
unfolding split_once
read_lines kv [] = kv
read_lines kv (line ∷ lines) = elim (split_once b'=' line) [
  | none ↦ read_lines kv lines
  | some (k, v) ↦ read_lines (insert kv (trim k) (trim v)) lines
]

-- `file` is what the file system answers for the path.
unfoldable pub read_kv : Option (List ℕ) → Result Fields Error
unfolding read_lines lines_from
read_kv file = do text ← ok_or io file; ok (read_lines [] (lines_from [] text))

unfoldable pub get_field : Fields → List ℕ → Result (List ℕ) Error
get_field kv k = ok_or format (lookup kv k)

abbrev pub u16_max : ℕ
u16_max = 65535

abbrev pub u64_max : ℕ
u64_max = 2 ^ 64 - 1

-- The digits of an unsigned integer; more than its largest value is an error, also on the way.
unfoldable pub parse_digits : ℕ → ℕ → List ℕ → Option ℕ
parse_digits limit n [] = some n
parse_digits limit n (c ∷ cs) =
    let m = n * 10 + (c - 48) in
    let rest = parse_digits limit m cs in
    if leb 48 c && (leb c 57 && leb m limit) then rest else none

-- `str::parse` to an unsigned integer: digits, at least one, and a plus sign before them or not.
unfoldable pub parse_uint : ℕ → List ℕ → Option ℕ
unfolding parse_digits
parse_uint limit [] = none
parse_uint limit (c ∷ []) = parse_digits limit 0 (c ∷ [])
parse_uint limit (c ∷ d ∷ cs) =
    if c == b'+' then parse_digits limit 0 (d ∷ cs) else parse_digits limit 0 (c ∷ d ∷ cs)

unfoldable pub parse_u16 : List ℕ → Option ℕ
unfolding parse_uint
parse_u16 s = parse_uint u16_max s

-- `"port"`.
unfoldable pub port_field : Fields → Result ℕ Error
unfolding get_field parse_u16
port_field kv = do s ← get_field kv (b'p' ∷ b'o' ∷ b'r' ∷ b't' ∷ []); ok_or format (parse_u16 s)

-- The crate `hex`.
pub record Hex : Type 0 where
  pub decode_hex : List ℕ → Option (List ℕ)

module _ ⦃hex : Hex⦄ where
  unfoldable pub hexd : List ℕ → Result (List ℕ) Error
  hexd s = ok_or format (hex.decode_hex s)

  unfoldable pub arr : ℕ → List ℕ → Result (List ℕ) Error
  unfolding hexd
  arr n s = do v ← hexd s; if not (length v == n) then err format else ok v

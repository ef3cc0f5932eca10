-- ===== src/Client/Lines.antt =====
-- What `read_kv` of spa-client/src/lib.rs reads from a file of `key=value` lines.
use spa_device.Prelude.{
  ℕ, ◌≡◌, refl, ap, sym, ◌∙◌, Bool, true, false, not, ◌&&◌, ◌==◌, List, [], ◌∷◌, ◌++◌, append_assoc,
  append-nil, some, if◌then◌else◌, ℕ_eq, List_eq, arith,
}
use spa_device.Prelude.Assoc.{insert}
use spa_device.Client.File.{
  cut_cr, lines_from, split_once, is_space, trim_start, trim_end, trim, Fields, read_lines,
}

-- Neither white space nor an equals sign.
abbrev pub all_plain : List ℕ → Bool
all_plain [] = true
all_plain (c ∷ cs) = not (is_space c) && (not (c == b'=') && all_plain cs)

abbrev pub on_one_line : List ℕ → Bool
on_one_line [] = true
on_one_line (c ∷ cs) = not (c == 10) && (not (c == 13) && on_one_line cs)

on_one_line-plain : (s : List ℕ) → all_plain s ≡ true → on_one_line s ≡ true
on_one_line-plain [] h = refl
on_one_line-plain (c ∷ cs) h = ground (arith, h, on_one_line-plain cs)

on_one_line-append :
    (s t : List ℕ) → on_one_line s ≡ true → on_one_line t ≡ true → on_one_line (s ++ t) ≡ true
on_one_line-append [] t h k = k
on_one_line-append (c ∷ cs) t h k = ground (arith, h, on_one_line-append cs t)

cut_cr-line : (s : List ℕ) → on_one_line s ≡ true → cut_cr s ≡ s
cut_cr-line [] h = refl
cut_cr-line (c ∷ []) h = ground (arith, h)
cut_cr-line (c ∷ d ∷ cs) h = ap (λ l. c ∷ l) (cut_cr-line (d ∷ cs) (ground (arith, h)))

lines_from-cons :
    (acc : List ℕ) (c : ℕ) (text : List ℕ)
    → lines_from acc (c ∷ text)
      ≡ (if c == 10 then cut_cr acc ∷ lines_from [] text else lines_from (acc ++ c ∷ []) text)
unfolding lines_from
lines_from-cons [] c text = refl
lines_from-cons (a ∷ acc) c text = refl

lines_from-line :
    (acc s rest : List ℕ)
    → on_one_line s ≡ true
    → lines_from acc (s ++ 10 ∷ rest) ≡ cut_cr (acc ++ s) ∷ lines_from [] rest
lines_from-line acc [] rest h = lines_from-cons acc 10 rest ∙ rw append-nil
lines_from-line acc (c ∷ cs) rest h =
    let other : (c == 10) ≡ false = ground (arith, h) in
    lines_from-cons acc c (cs ++ 10 ∷ rest)
    ∙ rw other (
        lines_from-line (acc ++ c ∷ []) cs rest (ground (arith, h))
        ∙ rw (append_assoc acc (c ∷ []) cs))

split_once-plain :
    (k v : List ℕ) → all_plain k ≡ true → split_once b'=' (k ++ b'=' ∷ v) ≡ some (k, v)
unfolding split_once
split_once-plain [] v h = refl
split_once-plain (c ∷ cs) v h =
    let other : (c == b'=') ≡ false = ground (arith, h) in
    rw (other, split_once-plain cs v (ground (arith, h)))

trim_start-plain : (s : List ℕ) → all_plain s ≡ true → trim_start s ≡ s
trim_start-plain [] h = refl
trim_start-plain (c ∷ cs) h = ground (arith, h)

trim_end-plain : (s : List ℕ) → all_plain s ≡ true → trim_end s ≡ s
trim_end-plain [] h = refl
trim_end-plain (c ∷ []) h = ground (arith, h)
trim_end-plain (c ∷ d ∷ cs) h = rw (trim_end-plain (d ∷ cs) (ground (arith, h)))

pub trim-plain : (s : List ℕ) → all_plain s ≡ true → trim s ≡ s
trim-plain s h = rw (trim_start-plain s h) (trim_end-plain s h)

read_lines-field :
    (kv : Fields) (line k v : List ℕ) (lines : List (List ℕ))
    → split_once b'=' line ≡ some (k, v)
    → read_lines kv (line ∷ lines) ≡ read_lines (insert kv (trim k) (trim v)) lines
unfolding read_lines
read_lines-field kv line k v lines h = rw (h, read_lines) refl

-- A line of a plain key and a plain value is one field.
pub read_lines-line :
    (kv : Fields) (k v rest : List ℕ)
    → all_plain k ≡ true
    → all_plain v ≡ true
    → read_lines kv (lines_from [] (k ++ b'=' ∷ (v ++ 10 ∷ rest)))
      ≡ read_lines (insert kv k v) (lines_from [] rest)
read_lines-line kv k v rest hk hv =
    let one : on_one_line (k ++ b'=' ∷ v) ≡ true =
      on_one_line-append k (b'=' ∷ v) (on_one_line-plain k hk)
        (ground (arith, on_one_line-plain v hv)) in
    ap (λ t. read_lines kv (lines_from [] t)) (sym (append_assoc k (b'=' ∷ v) (10 ∷ rest)))
    ∙ rw (lines_from-line [] (k ++ b'=' ∷ v) rest one, cut_cr-line (k ++ b'=' ∷ v) one)
        (read_lines-field kv (k ++ b'=' ∷ v) k v (lines_from [] rest) (split_once-plain k v hk)
          ∙ rw (trim-plain k hk, trim-plain v hv) refl)

-- ===== src/Gated/Scanner.antt =====
-- A concrete reader with the law that is asked of the crate `toml`: it scans the lines one character
-- after another.
use spa_device.Prelude.{
  ℕ, zero, suc, ◌+◌, ◌-◌, ◌*◌, ◌/◌, ◌%◌, ◌^◌, ◌<◌, ◌≡◌, refl, ap, sym, ◌∙◌, true, false, ◌||◌, ◌==◌,
  ==_iff, if◌then◌else◌, List, [], ◌∷◌, ◌++◌, append_assoc, append-nil, replicate, Bool-cases, inl,
  inr, ℕ_eq, arith,
}
use spa_device.Prelude.Text.{to_decimal, decimal_digits}
use spa_device.Gated.Toml.{
  Value, text, number, Setting, value_line, line, lines, toml_text, all_basic, all_bare, bare_key,
  IsPlainValue, IsPlain, Entries, entries,
}

pub data State : Type 0 where
  outside : State
  in_key : List ℕ → State
  behind_key : List ℕ → State
  in_text : List ℕ → List ℕ → State
  in_number : List ℕ → ℕ → State
  behind_text : State
  in_header : State

abbrev next : State → ℕ → State
next outside c = if c == 10 then outside else if c == 91 then in_header else in_key (c ∷ [])
next (in_key k) c = if c == 32 then behind_key k else in_key (k ++ c ∷ [])
next (behind_key k) c =
    if c == 34
    then in_text k []
    else if c == 32 || c == 61
    then behind_key k
    else in_number k (c - 48)
next (in_text k v) c = if c == 34 then behind_text else in_text k (v ++ c ∷ [])
next (in_number k n) c = if c == 10 then outside else in_number k (n * 10 + (c - 48))
next behind_text c = if c == 10 then outside else behind_text
next in_header c = if c == 10 then outside else in_header

-- The entries before the next header, and those behind it.
abbrev act : State → ℕ → Entries × Entries → Entries × Entries
act outside c r = r
act (in_key k) c r = r
act (behind_key k) c r = r
act (in_text k v) c r = if c == 34 then ((k, text v) ∷ r.0, r.1) else r
act (in_number k n) c r = if c == 10 then ((k, number n) ∷ r.0, r.1) else r
act behind_text c r = r
act in_header c r = if c == 10 then ([], r.0) else r

unfoldable pub scan : State → List ℕ → Entries × Entries
scan s [] = ([], [])
scan s (c ∷ cs) = act s c (scan (next s c) cs)

bare_next :
    (c : ℕ) (cs : List ℕ) → all_bare (c ∷ cs) ≡ true → ((c == 32) ≡ false) × (all_bare cs ≡ true)
bare_next c cs bare = ground (arith, ==_iff c 32)

basic_next :
    (c : ℕ) (cs : List ℕ) → all_basic (c ∷ cs) ≡ true → ((c == 34) ≡ false) × (all_basic cs ≡ true)
basic_next c cs basic = ground (arith, ==_iff c 34)

scan-in_key :
    (k cs rest : List ℕ)
    → all_bare cs ≡ true
    → scan (in_key k) (cs ++ 32 ∷ rest) ≡ scan (behind_key (k ++ cs)) rest
unfolding scan
scan-in_key k [] rest bare = ap (λ l. scan (behind_key l) rest) (sym (append-nil k))
scan-in_key k (c ∷ cs) rest bare =
    let (stays, on) = bare_next c cs bare in
    rw stays (
      scan-in_key (k ++ c ∷ []) cs rest on
      ∙ ap (λ l. scan (behind_key l) rest) (append_assoc k (c ∷ []) cs))

scan-spaces :
    (k : List ℕ) (pad : ℕ) (rest : List ℕ)
    → scan (behind_key k) (replicate pad 32 ++ rest) ≡ scan (behind_key k) rest
unfolding scan
scan-spaces k zero rest = refl
scan-spaces k (suc pad) rest = scan-spaces k pad rest

scan-in_text :
    (k v cs rest : List ℕ)
    → all_basic cs ≡ true
    → scan (in_text k v) (cs ++ 34 ∷ 10 ∷ rest)
      ≡ ((k, text (v ++ cs)) ∷ (scan outside rest).0, (scan outside rest).1)
unfolding scan
scan-in_text k v [] rest basic =
    ap (λ l. ((k, text l) ∷ (scan outside rest).0, (scan outside rest).1)) (sym (append-nil v))
scan-in_text k v (c ∷ cs) rest basic =
    let (stays, on) = basic_next c cs basic in
    rw stays (
      scan-in_text k (v ++ c ∷ []) cs rest on
      ∙ ap (λ l. ((k, text l) ∷ (scan outside rest).0, (scan outside rest).1))
          (append_assoc v (c ∷ []) cs))

digit_next :
    (d : ℕ)
    → d < 10
    → ((48 + d == 34) ≡ false)
      × ((48 + d == 32) ≡ false)
      × ((48 + d == 61) ≡ false)
      × ((48 + d == 10) ≡ false)
digit_next d small =
    ground (arith, ==_iff (48 + d) 34, ==_iff (48 + d) 32, ==_iff (48 + d) 61, ==_iff (48 + d) 10)

scan-first_digit :
    (k : List ℕ) (d m : ℕ) (rest : List ℕ)
    → d < 10
    → d ≡ m
    → scan (behind_key k) ((48 + d) ∷ rest) ≡ scan (in_number k m) rest
unfolding scan
scan-first_digit k d m rest small same =
    let (quote, space, equals, feed) = digit_next d small in
    rw (quote, space, equals) (ap (λ n. scan (in_number k n) rest) (omega (arith, same)))

scan-digit :
    (k : List ℕ) (n d m : ℕ) (rest : List ℕ)
    → d < 10
    → n * 10 + d ≡ m
    → scan (in_number k n) ((48 + d) ∷ rest) ≡ scan (in_number k m) rest
unfolding scan
scan-digit k n d m rest small same =
    let (quote, space, equals, feed) = digit_next d small in
    rw feed (ap (λ n. scan (in_number k n) rest) (omega (arith, same)))

-- The digits of a number, from the first one on.
scan-decimal_digits :
    (k : List ℕ) (fuel n : ℕ) (out : List ℕ)
    → n < 10 ^ suc fuel
    → scan (behind_key k) (decimal_digits (suc fuel) n out) ≡ scan (in_number k n) out
unfolding scan decimal_digits
scan-decimal_digits k zero n out small =
    let single : (n / 10 == 0) ≡ true = (==_iff (n / 10) 0).1 (omega arith) in
    rw single (scan-first_digit k (n % 10) n out (omega arith) (omega arith))
scan-decimal_digits k (suc fuel) n out small = elim (Bool-cases (n / 10 == 0)) [
  | inl single ↦
      let zero_is = (==_iff (n / 10) 0).0 single in
      rw single (scan-first_digit k (n % 10) n out (omega arith) (omega (arith, zero_is)))
  | inr more ↦ rw more (
      scan-decimal_digits k fuel (n / 10) ((48 + n % 10) ∷ out) (omega arith)
      ∙ scan-digit k (n / 10) (n % 10) n out (omega arith) (omega arith))
]

decimal_digits-append :
    (fuel n : ℕ) (out rest : List ℕ)
    → decimal_digits fuel n out ++ rest ≡ decimal_digits fuel n (out ++ rest)
unfolding decimal_digits
decimal_digits-append zero n out rest = refl
decimal_digits-append (suc fuel) n out rest =
    ground (arith, decimal_digits-append fuel (n / 10) ((48 + n % 10) ∷ out) rest)

scan-value_line :
    (k : List ℕ) (v : Value) (rest : List ℕ)
    → IsPlainValue v
    → scan (behind_key k) (value_line v rest)
      ≡ ((k, v) ∷ (scan outside rest).0, (scan outside rest).1)
unfolding scan to_decimal
scan-value_line k (text v) rest basic = scan-in_text k [] v rest basic
scan-value_line k (number n) rest small =
    ap (scan (behind_key k)) (decimal_digits-append 20 n [] (10 ∷ rest))
    ∙ scan-decimal_digits k 19 n (10 ∷ rest) (omega arith)

key_start :
    (c : ℕ) (cs : List ℕ)
    → bare_key (c ∷ cs) ≡ true
    → ((c == 10) ≡ false) × ((c == 91) ≡ false) × (all_bare cs ≡ true)
key_start c cs bare = ground (arith, ==_iff c 10, ==_iff c 91)

scan-key :
    (c : ℕ) (cs : List ℕ) (pad : ℕ) (rest : List ℕ)
    → bare_key (c ∷ cs) ≡ true
    → scan outside ((c ∷ cs) ++ (replicate pad 32 ++ (32 ∷ rest))) ≡ scan (behind_key (c ∷ cs)) rest
unfolding scan
scan-key c cs zero rest bare =
    let (feed, bracket, on) = key_start c cs bare in
    rw (feed, bracket) (scan-in_key (c ∷ []) cs rest on)
scan-key c cs (suc pad) rest bare =
    let (feed, bracket, on) = key_start c cs bare in
    rw (feed, bracket)
      (scan-in_key (c ∷ []) cs (replicate pad 32 ++ (32 ∷ rest)) on
        ∙ scan-spaces (c ∷ cs) pad (32 ∷ rest))

scan-setting :
    (key : List ℕ) (pad : ℕ) (v : Value) (rest : List ℕ)
    → bare_key key ≡ true
    → IsPlainValue v
    → scan outside (key ++ (replicate pad 32 ++ (32 ∷ 61 ∷ 32 ∷ value_line v rest)))
      ≡ ((key, v) ∷ (scan outside rest).0, (scan outside rest).1)
unfolding scan
scan-setting [] pad v rest bare plain = cc bare
scan-setting (c ∷ cs) pad v rest bare plain =
    scan-key c cs pad (61 ∷ 32 ∷ value_line v rest) bare ∙ scan-value_line (c ∷ cs) v rest plain

scan-line :
    (s : Setting) (rest : List ℕ)
    → bare_key s.key ≡ true
    → IsPlainValue s.value
    → scan outside (line s rest) ≡ ((s.key, s.value) ∷ (scan outside rest).0, (scan outside rest).1)
scan-line s rest bare plain =
    ap (scan outside)
      (append_assoc s.key (replicate s.pad 32) (32 ∷ 61 ∷ 32 ∷ value_line s.value rest))
    ∙ scan-setting s.key s.pad s.value rest bare plain

scan-lines :
    (settings : List Setting) (rest : List ℕ)
    → IsPlain settings
    → scan outside (lines settings rest)
      ≡ (entries settings ++ (scan outside rest).0, (scan outside rest).1)
unfolding scan
scan-lines [] rest plain = refl
scan-lines (s ∷ settings) rest (bare, value, new, plain) =
    scan-line s (lines settings rest) bare value
    ∙ ap (λ (r : Entries × Entries). ((s.key, s.value) ∷ r.0, r.1)) (scan-lines settings rest plain)

pub scan-toml_text :
    (root table : List Setting)
    → IsPlain root
    → IsPlain table
    → scan outside (toml_text root table) ≡ (entries root, entries table)
unfolding scan
scan-toml_text root table plain plain' =
    scan-lines root _ plain
    ∙ rw (scan-lines table [] plain', append-nil (entries table), append-nil (entries root)) refl

-- ===== src/Cli/Main.antt =====
-- `main` of spa-client/src/main.rs: the commands and their arguments, and the two short commands that
-- knock with what is in files.
use spa_device.Prelude.{
  ℕ, zero, suc, if◌then◌else◌, List, [], ◌∷◌, Option, none, some, Result, ok, ◌>>=◌, ok_or, ℕ_eq,
  list_eq,
}
use spa_device.Prelude.Text.{codes}
use spa_device.Crypto.{Primitives, Agreement, Signing}
use spa_device.Crypto.Client.{Pkcs8}
use spa_device.Client.File.{Error, Hex}
use spa_device.Client.Knocker.{Answers, from_knock_file, send_knock, from_files}
use spa_device.Client.Knocker as Knocker

pub data Command : Type 0 where
  keygen gen_client : List ℕ → List ℕ → Command
  knock : List ℕ → List ℕ → Command
  knock_descriptor : List ℕ → List ℕ → Option (List ℕ) → Command
  gen_token gen_anchor : List ℕ → Command
  enroll_knock sign_bundle : List ℕ → List ℕ → List ℕ → Command
  -- The list of the commands is shown.
  help : Command

-- An argument is missing; the usage of the command is shown.
pub data Usage : Type 0 where
  usage : Usage

-- `args.get(i)`
abbrev pub arg : List (List ℕ) → ℕ → Option (List ℕ)
arg [] i = none
arg (a ∷ args) zero = some a
arg (a ∷ args) (suc i) = arg args i

-- `args.get(3).map(String::as_str).unwrap_or("modern")`
abbrev pub or_modern : Option (List ℕ) → List ℕ
or_modern none = codes "modern"
or_modern (some name) = name

abbrev pub needed : List (List ℕ) → ℕ → Result (List ℕ) Usage
needed args i = ok_or usage (arg args i)

unfoldable pub named_command : List ℕ → List (List ℕ) → Result Command Usage
named_command name args =
    if list_eq name (codes "keygen")
    then (do p ← needed args 2; ok (keygen p (or_modern (arg args 3))))
    else if list_eq name (codes "gen-client")
    then (do p ← needed args 2; ok (gen_client p (or_modern (arg args 3))))
    else if list_eq name (codes "knock")
    then (do t ← needed args 2; f ← needed args 3; ok (knock t f))
    else if list_eq name (codes "knock-descriptor")
    then (do d ← needed args 2; k ← needed args 3; ok (knock_descriptor d k (arg args 4)))
    else if list_eq name (codes "gen-token")
    then (do p ← needed args 2; ok (gen_token p))
    else if list_eq name (codes "enroll-knock")
    then (do t ← needed args 2; k ← needed args 3; e ← needed args 4; ok (enroll_knock t k e))
    else if list_eq name (codes "gen-anchor")
    then (do p ← needed args 2; ok (gen_anchor p))
    else if list_eq name (codes "sign-bundle")
    then (do k ← needed args 2; p ← needed args 3; o ← needed args 4; ok (sign_bundle k p o))
    else ok help

-- `args` begins with the program's own name.
unfoldable pub parse_command : List (List ℕ) → Result Command Usage
unfolding named_command
parse_command args = elim (arg args 1) [ none ↦ ok help | some name ↦ named_command name args ]

-- `knock`: the datagram that is sent. `file` is what the file system answers for the path.
unfoldable pub knock_command :
    (E D : Type 0) ⦃signing : Signing E D⦄ ⦃aws : Primitives⦄ ⦃pkcs8 : Pkcs8 E D⦄ {P : Type 0}
    ⦃dh : Agreement P⦄ ⦃hex : Hex⦄
    → Option (List ℕ)
    → Answers P
    → Result (List ℕ) Error
knock_command E D file answers = do
  k ← from_knock_file {E = E} {D = D} file
  send_knock k.0 answers k.1

-- `enroll_knock`.
unfoldable pub enroll_command :
    {P : Type 0} ⦃dh : Agreement P⦄ ⦃aws : Primitives⦄ ⦃hex : Hex⦄
    → Option (List ℕ)
    → Option (List ℕ)
    → Answers P
    → Result (List ℕ) Error
enroll_command knockfile enrollfile answers = do
  e ← from_files knockfile enrollfile
  Knocker.enroll_knock e.0 answers e.1

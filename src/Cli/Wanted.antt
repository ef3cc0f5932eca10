-- ===== src/Cli/Wanted.antt =====
-- What the inputs of `knock_descriptor` of spa-client/src/main.rs ask for: the fields of the
-- descriptor, the ports and the key file.
use spa_device.Prelude.{
  ℕ, ◌≤◌, ◌≡◌, ◌⊎◌, ap, sym, ◌∙◌, subst, not, true, false, Bool-cases, ◌++◌, ◌==◌, leb, List, [],
  ◌∷◌, length, Option, none, some, Result, ok, err, ok_or, if◌then◌else◌, bind_step, if_step, inl,
  inr, arith,
}
use spa_device.Prelude.Text.{codes}
use spa_device.Wire.{gate_id_len}
use spa_device.Client.File.{Error, io, format, trim, u16_max, parse_u16, Hex, hexd}
use spa_device.Client.Sized.{parse_u16-le}
use spa_device.Cli.Descriptor.{
  Json, collect_ports, split_on, parse_ports, gate_id_arr, Inputs, key_path, field, u16_entries,
  descriptor_ports, chosen_ports,
}

pub ok_inj : {A : Type 0} {a b : A} → ◌≡◌ {A = Result A Error} (ok a) (ok b) → a ≡ b
ok_inj h = cc h

pub some_of_ok : {A : Type 0} (o : Option A) {a : A} → ok_or format o ≡ ok a → o ≡ some a
some_of_ok none h = cc h
some_of_ok (some b) h = cc h

pub some_of_read : (o : Option (List ℕ)) {a : List ℕ} → ok_or io o ≡ ok a → o ≡ some a
some_of_read none h = cc h
some_of_read (some b) h = cc h

-- Two lists of one length, whose elements are related one by one.
abbrev pub Each : {A B : Type 0} → (A → B → Type 0) → List A → List B → Type 0
Each R [] [] = Unit
Each R (a ∷ l) (b ∷ bs) = R a b × Each R l bs
Each R [] (b ∷ bs) = ⊥
Each R (a ∷ l) [] = ⊥

-- A part of a list of ports, and the port that it names.
abbrev NamesPort : List ℕ → ℕ → Type 0
NamesPort part p = (parse_u16 (trim part) ≡ some p) × (p ≤ u16_max)

collect_ports-Each :
    (parts : List (List ℕ)) (ports : List ℕ)
    → collect_ports parts ≡ ok ports
    → Each NamesPort parts ports
unfolding collect_ports
collect_ports-Each [] ports h = subst (Each NamesPort []) (ok_inj h) tt
collect_ports-Each (part ∷ parts) ports h =
    bind_step (ok_or format (parse_u16 (trim part))) _ h λ p e h.
      bind_step (collect_ports parts) _ h λ ps e' h.
        let parsed = some_of_ok _ e in
        subst (Each NamesPort (part ∷ parts)) (ok_inj h)
          ((parsed, parse_u16-le (trim part) parsed), collect_ports-Each parts ps e')

module _ {J : Type 0} ⦃json : Json J⦄ where
  -- A value of JSON is the number of a port.
  abbrev IsPort : J → ℕ → Type 0
  IsPort v p = (json.as_u64 v ≡ some p) × (p ≤ u16_max)

  -- The object `d` has a string `s` at the key `k`.
  abbrev pub Says : J → List ℕ → List ℕ → Type 0
  Says d k s = (v : J) × (json.get d k ≡ some v) × (json.as_str v ≡ some s)

  -- The ports are those of the list that is given, or else those of the descriptor.
  abbrev pub Wanted : J → Option (List ℕ) → List ℕ → Type 0
  Wanted d (some s) ports = Each NamesPort (split_on b',' [] s) ports
  Wanted d none ports =
      (v : J) × (entries : List J) × (json.get d (codes "ports") ≡ some v)
      × (json.as_array v ≡ some entries)
      × Each IsPort entries ports

  pub field-Says : (d : J) (k s : List ℕ) → field d k ≡ ok s → Says d k s
  unfolding field
  field-Says d k s h =
      bind_step (ok_or format (json.get d k)) _ h λ v e h. (v, some_of_ok _ e, some_of_ok _ h)

  u16_entries-Each :
      (entries : List J) (ports : List ℕ)
      → u16_entries entries ≡ ok ports
      → Each IsPort entries ports
  unfolding u16_entries
  u16_entries-Each [] ports h = subst (Each IsPort []) (ok_inj h) tt
  u16_entries-Each (v ∷ vs) ports h = bind_step (ok_or format (json.as_u64 v)) _ h λ n e h.
      bind_step (if leb n u16_max then ok n else err format) _ h λ p e' h.
        bind_step (u16_entries vs) _ h λ ps e'' h.
          let (same, small) : (n ≡ p) × (p ≤ u16_max) = ground (arith, e') in
          subst (Each IsPort (v ∷ vs)) (ok_inj h)
            ((some_of_ok _ e ∙ ap some same, small), u16_entries-Each vs ps e'')

  pub chosen_ports-Wanted :
      (d : J) (given : Option (List ℕ)) (ports : List ℕ)
      → chosen_ports d given ≡ ok ports
      → Wanted d given ports
  unfolding chosen_ports parse_ports descriptor_ports
  chosen_ports-Wanted d (some s) ports h = collect_ports-Each (split_on b',' [] s) ports h
  chosen_ports-Wanted d none ports h =
      bind_step (ok_or format (json.get d (codes "ports"))) _ h λ v e h.
        bind_step (ok_or format (json.as_array v)) _ h λ entries e' h.
          (v, entries, some_of_ok _ e, some_of_ok _ e', u16_entries-Each entries ports h)

pub gate_id_arr-ok :
    ⦃hex : Hex⦄ (s b : List ℕ) → gate_id_arr s ≡ ok b → (hexd s ≡ ok b) × (length b ≡ gate_id_len)
unfolding gate_id_arr
gate_id_arr-ok s b h = bind_step (hexd s) _ h λ v e h.
    if_step (not (length v == gate_id_len)) _ _ h
      λ same h. (e ∙ h, ap (length {0}) (sym (ok_inj h)) ∙ ground (arith, same))

-- The file of the client's key: at the path that is given if it exists, or else at the path with
-- `.client.key` behind it.
abbrev pub KeyFile : Inputs → List ℕ → List ℕ → Type 0
KeyFile inputs path text =
    ((inputs.exists path ≡ true) × (inputs.file path ≡ some text))
    ⊎ ((inputs.exists path ≡ false) × (inputs.file (path ++ codes ".client.key") ≡ some text))

pub key_path-KeyFile :
    (inputs : Inputs) (path text : List ℕ)
    → inputs.file (key_path inputs path) ≡ some text
    → KeyFile inputs path text
unfolding key_path
key_path-KeyFile inputs path text h = elim (Bool-cases (inputs.exists path)) [
  | inl there ↦ inl (there, rw there at h)
  | inr missing ↦ inr (missing, rw missing at h)
]

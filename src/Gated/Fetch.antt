-- ===== src/Gated/Fetch.antt =====
-- spa-gated/src/cp.rs: the client of the control plane. The crates `reqwest` and `serde_json` are the
-- fields of an interface; the texts of errors are not modelled.
use spa_device.Prelude.{
  ℕ, ◌==◌, if◌then◌else◌, Bool, true, false, List, [], ◌∷◌, ◌++◌, Option, none, some, Result, ok,
  err, ok_or, ℕ_eq, List_eq, list_eq,
}
use spa_device.Prelude.Text.{codes, to_decimal}
use spa_device.Files.{FileSystem, Io, lift, pure, ◌>>=◌, ◌>>◌}
use spa_device.Gated.Config.{ControlPlane}

pub record Provisioned : Type 0 where
  pub gate_id : Option (List ℕ)
  pub config_anchor : Option (List ℕ)

pub data Method : Type 0 where
  get : Method
  -- with the body, which is JSON
  post : List ℕ → Method

-- What is sent, over TLS only, with the certificate that is trusted beside the system's.
pub record Request : Type 0 where
  pub root_certificate : Option (List ℕ)
  pub method : Method
  pub url : List ℕ
  pub bearer : List ℕ

-- `send` is the body of an answer without an error status; `none` is any error.
pub record Http : Type 0 where
  pub certificate_from_pem : List ℕ → Option (List ℕ)
  pub send : Request → Option (List ℕ)
  pub provisioned_from_json : List ℕ → Option Provisioned

pub data FetchError : Type 0 where
  no_ca_cert bad_ca_cert http_error io_error : FetchError

-- `s.trim_end_matches('/')`
abbrev pub trim_slashes : List ℕ → List ℕ
trim_slashes [] = []
trim_slashes (c ∷ cs) = elim (trim_slashes cs) [
  | [] ↦ if c == b'/' then [] else c ∷ []
  | (d ∷ ds) ↦ c ∷ d ∷ ds
]

-- The text before the last slash.
abbrev pub before_slash : List ℕ → Option (List ℕ)
before_slash [] = none
before_slash (c ∷ cs) = elim (before_slash cs) [
  | some front ↦ some (c ∷ front)
  | none ↦ if c == b'/' then some [] else none
]

-- `Path::parent`, of a path without a slash at its end or two in a row.
unfoldable pub parent : List ℕ → Option (List ℕ)
parent [] = none
parent (c ∷ cs) = elim (before_slash (c ∷ cs)) [
  | none ↦ some []
  | some [] ↦ some (b'/' ∷ [])
  | some (d ∷ ds) ↦ some (d ∷ ds)
]

-- The steps that change files.
pub data Effect : Type 0 where
  create_dirs : List ℕ → Effect
  write_to : List ℕ → List ℕ → Effect
  rename_to : List ℕ → List ℕ → Effect

abbrev pub tmp_path : List ℕ → List ℕ
tmp_path dest = dest ++ codes ".tmp"

-- What `fetch_bundle` does with bytes that are new.
unfoldable pub fetch_plan : List ℕ → List ℕ → List Effect
unfolding parent
fetch_plan dest bytes =
    let store = write_to (tmp_path dest) bytes ∷ rename_to (tmp_path dest) dest ∷ [] in
    elim (parent dest) [ none ↦ store | some dir ↦ create_dirs dir ∷ store ]

abbrev pub identity_body : ControlPlane → List ℕ → ℕ → List ℕ
identity_body cp gate_pubkey_hex knock_port =
    codes "{\"public_key_hex\":\""
    ++ gate_pubkey_hex
    ++ codes "\",\"address\":\""
    ++ cp.address
    ++ codes "\",\"knock_port\":"
    ++ to_decimal knock_port
    ++ codes "}"

abbrev pub or_default : Option Provisioned → Provisioned
or_default none = record { gate_id = none; config_anchor = none }
or_default (some p) = p

abbrev pub same_content : Option (List ℕ) → List ℕ → Bool
same_content none bytes = false
same_content (some old) bytes = list_eq old bytes

module _ {F : Type 0} ⦃fs : FileSystem F⦄ where
  abbrev pub effect : Effect → F → Option F
  effect (create_dirs dir) f = fs.create_dir_all f dir
  effect (write_to path content) f = fs.write f path content
  effect (rename_to from to) f = fs.rename f from to

  unfoldable pub run_effects : List Effect → Io F FetchError (Unit {0})
  run_effects [] f = (ok tt, f)
  run_effects (e ∷ es) f = elim (effect e f) [
    | none ↦ (err io_error, f)
    | some g ↦ run_effects es g
  ]

  module _ ⦃http : Http⦄ where
    -- `client(cp)`: the certificate that is added, if there is one.
    unfoldable pub client : F → ControlPlane → Result (Option (List ℕ)) FetchError
    client f cp = elim cp.ca_cert [
      | none ↦ ok none
      | some ca ↦ elim (fs.read f ca) [
        | none ↦ err no_ca_cert
        | some pem ↦ elim (http.certificate_from_pem pem) [
          | none ↦ err bad_ca_cert
          | some certificate ↦ ok (some certificate)
        ]
      ]
    ]

    -- `client(cp)?.…send()…bytes()?`
    unfoldable pub ask : F → ControlPlane → Method → List ℕ → Result (List ℕ) FetchError
    unfolding client
    ask f cp method path = elim (client f cp) [
      | err e ↦ err e
      | ok root ↦ ok_or http_error (
          http.send (record {
            root_certificate = root;
            method = method;
            url = trim_slashes cp.url ++ path;
            bearer = cp.gate_token;
          }))
    ]

    unfoldable pub register_identity : F → ControlPlane → List ℕ → ℕ → Result Provisioned FetchError
    unfolding ask
    register_identity f cp gate_pubkey_hex knock_port =
        elim (ask f cp (post (identity_body cp gate_pubkey_hex knock_port))
          (codes "/api/gate/identity")) [
            | err e ↦ err e
            | ok bytes ↦ ok (or_default (http.provisioned_from_json bytes))
          ]

    -- `true` if the bytes are new.
    unfoldable pub fetch_bundle : ControlPlane → List ℕ → Io F FetchError Bool
    unfolding ask run_effects fetch_plan
    fetch_bundle cp dest f =
        (do
          bytes ← lift (ask f cp get (codes "/api/gate/bundle"))
          if same_content (fs.read f dest) bytes
              then pure false
              else do run_effects (fetch_plan dest bytes); pure true)
          f

-- ===== src/Crypto/Export.antt =====
-- PKCS#8 export in spa-crypto/src/lib.rs.
use spa_device.Prelude.{◌≡◌, refl, subst, List, ℕ, Option, none, some, ok, All}
use spa_device.Prelude.Bytes.{IsByte}
use spa_device.Wire.{Suite, fips, modern}
use spa_device.Crypto.{Primitives, Agreement, Signing}
use spa_device.Crypto.Client.{
  Signer, ecdsa, ed25519, ClientKey, from_signer, from_key_pairs, Pkcs8, from_pkcs8,
  signer_to_pkcs8, to_pkcs8,
}
use spa_device.Crypto.Envelope.{ok_or-eq-ok}
use spa_device.Crypto as Crypto
use spa_device.Crypto.Laws.{LawfulPkcs8, MakesBytes}

module _ {E D : Type 0} ⦃signing : Signing E D⦄ ⦃aws : Primitives⦄ ⦃pkcs8 : Pkcs8 E D⦄ where
  -- The document of the client is read back under the suite.
  abbrev pub Reloads : Suite → ClientKey E D → Type 0
  Reloads suite client =
      (doc : List ℕ) → to_pkcs8 client ≡ ok doc → from_pkcs8 suite doc ≡ ok client

  fips-Reloads : LawfulPkcs8 pkcs8 → (kp : E) → Reloads fips (from_signer fips (ecdsa kp))
  unfolding from_pkcs8 to_pkcs8 from_signer from_key_pairs
  fips-Reloads lawful kp doc out =
      rw (lawful.ecdsa_reads kp doc (ok_or-eq-ok Crypto.key _ out)) refl

  modern-Reloads : LawfulPkcs8 pkcs8 → (kp : D) → Reloads modern (from_signer modern (ed25519 kp))
  unfolding from_pkcs8 to_pkcs8 from_signer from_key_pairs
  modern-Reloads lawful kp doc out =
      rw (lawful.ed25519_reads kp doc (ok_or-eq-ok Crypto.key _ out)) refl

  -- A client key that was built by `generate` or by `from_pkcs8` is exported as a document from
  -- which it is loaded again.
  pub from_pkcs8-to_pkcs8 :
      (lawful : LawfulPkcs8 pkcs8) (suite : Suite) (e : Option E) (d : Option D)
      (client : ClientKey E D)
      → from_key_pairs suite e d ≡ ok client
      → Reloads suite client
  unfolding from_key_pairs
  from_pkcs8-to_pkcs8 lawful fips (some kp) d client h =
      subst (Reloads fips) (cc h) (fips-Reloads lawful kp)
  from_pkcs8-to_pkcs8 lawful fips none d client h = cc h
  from_pkcs8-to_pkcs8 lawful modern e (some kp) client h =
      subst (Reloads modern) (cc h) (modern-Reloads lawful kp)
  from_pkcs8-to_pkcs8 lawful modern e none client h = cc h

  pub anchor-key :
      {P : Type 0} {dh : Agreement P} (makes : MakesBytes dh pkcs8 signing) (d : Option D)
      (anchor : ClientKey E D)
      → from_key_pairs modern none d ≡ ok anchor
      → (anchor.suite ≡ modern) × All IsByte anchor.public
  unfolding from_key_pairs from_signer
  anchor-key makes (some kp) anchor h =
      subst (λ (k : ClientKey E D). (k.suite ≡ modern) × All IsByte k.public)
        {x = from_signer modern (ed25519 kp)} {y = anchor} (cc h)
        (refl, makes.ed25519_public_bytes kp)
  anchor-key makes none anchor h = cc h

  doc_bytes :
      {P : Type 0} {dh : Agreement P} (makes : MakesBytes dh pkcs8 signing) (signer : Signer E D)
      (doc : List ℕ)
      → signer_to_pkcs8 signer ≡ some doc
      → All IsByte doc
  doc_bytes makes (ecdsa kp) doc out = makes.ecdsa_doc_bytes kp doc out
  doc_bytes makes (ed25519 kp) doc out = makes.ed25519_doc_bytes kp doc out

  pub to_pkcs8-IsByte :
      {P : Type 0} {dh : Agreement P} (makes : MakesBytes dh pkcs8 signing) (client : ClientKey E D)
      (doc : List ℕ)
      → to_pkcs8 client ≡ ok doc
      → All IsByte doc
  unfolding to_pkcs8
  to_pkcs8-IsByte makes client doc out =
      doc_bytes makes client.signer doc (ok_or-eq-ok Crypto.key _ out)

-- ===== src/Cli/Publish.antt =====
-- From `gen_anchor` and `sign_bundle` of spa-client/src/main.rs to the watcher of
-- spa-gated/src/main.rs: a bundle that was signed with the anchor is applied by the gate that pins it.
use spa_device.Prelude.{
  ℕ, ◌≡◌, ◌<◌, refl, ap, sym, ◌∙◌, false, List, ◌++◌, Option, none, some, Result, ok,
}
use spa_device.Prelude.Text.{HexEncode, codes}
use spa_device.Bpf.{BpfMap}
use spa_device.Wire.{modern}
use spa_device.Crypto.{Primitives, Agreement, Signing}
use spa_device.Crypto.Client.{
  ClientKey, Pkcs8, from_key_pairs, to_pkcs8, sign_message, sign_detached,
}
use spa_device.Crypto.CanSign.{from_key_pairs-CanSign, sign_message-array}
use spa_device.Crypto.Laws.{LawfulPrimitives, LawfulSigning, LawfulPkcs8, MakesBytes}
use spa_device.Crypto.Export.{from_pkcs8-to_pkcs8, to_pkcs8-IsByte, anchor-key}
use spa_device.Files.{
  FileSystem, LawfulFiles, ◌>>=◌, lift, write_file, io_step, write_step, write_file-ok,
  read-write_file,
}
use spa_device.Client.File.{Error, io, Hex}
use spa_device.Client.Knocker.{from_crypto}
use spa_device.Client.Lines.{trim-plain}
use spa_device.Gated.Config.{Formats}
use spa_device.Gated.Bundle.{Bundle, BundleFormat}
use spa_device.Gated.Watch.{Watcher, same_mtime, apply_bundle, watch_round}
use spa_device.Gated.Publish.{IsPayload, load_verify-signed, watch_round-newer}
use spa_device.Cli.Keys.{gen_anchor, sign_bundle}
use spa_device.Cli.Reread.{LawfulHex, digits_plain}
use spa_device.Cli.Keygen.{from_crypto-ok, hexd-encode}

ok_inj : {A : Type 0} {a b : A} → ◌≡◌ {A = Result A Error} (ok a) (ok b) → a ≡ b
ok_inj h = cc h

module _ {E D P F : Type 0} ⦃signing : Signing E D⦄ ⦃aws : Primitives⦄ ⦃pkcs8 : Pkcs8 E D⦄
    ⦃fs : FileSystem F⦄ ⦃encoder : HexEncode⦄ ⦃decoder : Hex⦄ (hex : LawfulHex encoder decoder)
    (files : LawfulFiles fs) {dh : Agreement P} (makes : MakesBytes dh pkcs8 signing)
    (loads : LawfulPkcs8 pkcs8) where
  -- The anchor that `gen_anchor` writes and shows.
  record IsAnchor (keyfile shown : List ℕ) (d : Option D) (f : F) : Type 0 where
    anchor : ClientKey E D
    doc : List ℕ
    built : from_key_pairs modern none d ≡ ok anchor
    out : to_pkcs8 anchor ≡ ok doc
    stored : fs.read f keyfile ≡ some (encoder.encode_hex doc)
    public_shown : encoder.encode_hex anchor.public ≡ shown

  gen_anchor-IsAnchor :
      (prefix shown : List ℕ) (d : Option D) (f g : F)
      → gen_anchor E D prefix d f ≡ (ok shown, g)
      → IsAnchor (prefix ++ codes ".anchor.key") shown d g
  unfolding gen_anchor
  gen_anchor-IsAnchor prefix shown d f g h =
      io_step (lift (from_crypto (from_key_pairs modern none d))) _ f h λ anchor e1 h.
        io_step (lift (from_crypto (to_pkcs8 anchor))) _ f h λ doc e2 h.
          write_step io (prefix ++ codes ".anchor.key") (encoder.encode_hex doc) _ f h λ f' e3 h.
            record {
              anchor = anchor;
              doc = doc;
              built = from_crypto-ok (from_key_pairs modern none d) e1;
              out = from_crypto-ok (to_pkcs8 anchor) e2;
              stored =
                  read-write_file files (prefix ++ codes ".anchor.key") (encoder.encode_hex doc) f g
                    (e3 ∙ ap some (ap (λ (r : Result (List ℕ) Error × F). r.1) h));
              public_shown = ok_inj (ap (λ (r : Result (List ℕ) Error × F). r.0) h);
            }

  -- With the file of an anchor, `sign_bundle` is its last two steps.
  sign_bundle-anchor :
      (keyfile payload out shown body : List ℕ) (d : Option D) (seed : ℕ) (f : F)
      (a : IsAnchor keyfile shown d f)
      → fs.read f payload ≡ some body
      → sign_bundle E D keyfile payload out seed f
        ≡ (lift (from_crypto (sign_detached a.anchor seed body)) >>= λ signature.
              write_file io out (signature ++ body))
            f
  unfolding sign_bundle
  sign_bundle-anchor keyfile payload out shown body d seed f a content =
      rw
        (
          a.stored,
          trim-plain (encoder.encode_hex a.doc) (digits_plain hex a.doc),
          hexd-encode hex a.doc (to_pkcs8-IsByte makes a.anchor a.doc a.out),
          from_pkcs8-to_pkcs8 loads modern none d a.anchor a.built a.doc a.out,
          content,
        )
        refl

  module _ (lawful : LawfulPrimitives aws) (signs : LawfulSigning aws signing) ⦃formats : Formats⦄
      ⦃toml : BundleFormat⦄ {Q : Type 0} ⦃map : BpfMap Q ℕ ℕ⦄ where
    -- A payload that is signed with the anchor of `gen_anchor` is applied by the watcher of a gate that
    -- pins the public key that `gen_anchor` showed: in the round in which the file has a new
    -- modification time, if its generation is newer than the one in force.
    pub sign_bundle-applied :
        (prefix payload out shown body : List ℕ) (d : Option D) (seed : ℕ) (f f' g : F) (b : Bundle)
        (w : Watcher Q) (t : ℕ)
        → gen_anchor E D prefix d f ≡ (ok shown, f')
        → fs.read f' payload ≡ some body
        → sign_bundle E D (prefix ++ codes ".anchor.key") payload out seed f' ≡ (ok tt, g)
        → decoder.decode_hex shown ≡ some w.anchor
        → IsPayload body b
        → same_mtime t w.last_mtime ≡ false
        → w.applied_gen < b.generation
        → watch_round w (record { mtime = some t; file = fs.read g out })
          ≡ apply_bundle (record w { last_mtime = some t }) b
    unfolding sign_detached
    sign_bundle-applied prefix payload out shown body d seed f f' g b w t made content wrote pinned
          p changed newer =
        let a = gen_anchor-IsAnchor prefix shown d f f' made in
        let can = from_key_pairs-CanSign lawful signs modern none d a.anchor a.built in
        let key = anchor-key makes d a.anchor a.built in
        let same : w.anchor ≡ a.anchor.public =
          cc (pinned, a.public_shown, hex.decode-encode a.anchor.public key.1) in
        io_step (lift (from_crypto (sign_detached a.anchor seed body))) _ f'
          (sym (
              sign_bundle-anchor (prefix ++ codes ".anchor.key") payload out shown body d seed f' a
                content)
            ∙ wrote)
          λ signature e h.
            let signed =
              sign_message-array lawful signs a.anchor seed body signature can
                (from_crypto-ok (sign_message a.anchor seed body) e) in
            watch_round-newer w t (fs.read g out) b changed
              (rw
                (
                  read-write_file files out (signature ++ body) f' g
                      (write_file-ok io out (signature ++ body) f' g h),
                  same,
                )
                (load_verify-signed a.anchor.public signature body b signed.0.size
                  (rw key.0 at signed.1) p))
              newer

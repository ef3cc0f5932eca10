-- ===== src/Gated/FetchTests.antt =====
-- A bundle that is fetched over an older one, and one that is cut off in the midst of its write.
use spa_device.Prelude.{ℕ, ◌≡◌, ◌⊎◌, refl, List, [], ◌∷◌, none, some, ok, ℕ_eq, List_eq}
use spa_device.Prelude.Text.{codes}
use spa_device.Prelude.Assoc.{lookup, insert, remove}
use spa_device.Files.Table.{Table, table, table_lawful}
use spa_device.Gated.Config.{ControlPlane}
use spa_device.Gated.Fetch.{Http, get, create_dirs, tmp_path, parent, fetch_plan, client, ask}
use spa_device.Gated.Atomic.{torn, later}
use spa_device.Gated.Fetched.{Interrupted, within, fetch_bundle-atomic}

instance abbrev http : Http
http = record {
  certificate_from_pem = λ pem. some pem;
  send = λ request. some (codes "new bundle");
  provisioned_from_json = λ s. none;
}

abbrev control_plane : ControlPlane
control_plane = record {
  url = codes "https://cp.example/";
  gate_token = codes "secret";
  address = codes "10.0.0.1";
  ca_cert = none;
}

abbrev dest : List ℕ
dest = codes "/etc/spa/bundle.spa"

abbrev before : Table
before = (dest, codes "old") ∷ []

abbrev halfway : Table
halfway = (codes "/etc/spa/bundle.spa.tmp", codes "new b") ∷ before

answered : ask before control_plane get (codes "/api/gate/bundle") ≡ ok (codes "new bundle")
unfolding ask client
answered = refl

cut_off : Interrupted control_plane dest before halfway
unfolding fetch_plan parent insert remove
cut_off = within (codes "new bundle") halfway answered (
    later (create_dirs (codes "/etc/spa")) _ before before halfway refl
      (torn (tmp_path dest) (codes "new bundle") 5 _ before halfway refl))

fetch_bundle-atomic_example :
    (lookup halfway dest ≡ lookup before dest)
    ⊎ ((bytes : List ℕ) × (ask before control_plane get (codes "/api/gate/bundle") ≡ ok bytes)
        × (lookup halfway dest ≡ some bytes))
fetch_bundle-atomic_example =
    fetch_bundle-atomic table_lawful control_plane dest before halfway cut_off

-- ===== src/Wire/Decode.antt =====
-- `Authorization::decode` of spa-common/src/lib.rs.
use spa_device.Prelude.{
  ℕ, zero, suc, not, List, [], ◌∷◌, ◌++◌, ◌==◌, if◌then◌else◌, Result, ok, err, ◌>>=◌,
}
use spa_device.Wire.{
  version, nonce_len, gate_id_len, thumbprint_len, sig_len, WireError, bad_version, bad_port_count,
  trailing_bytes, Authorization, bad_count,
}
use spa_device.Wire.Reader.{Read, new, u8, u16, u64, array, remaining}

-- `for _ in 0..count { ports.push(r.u16()?) }`
unfoldable pub read_ports : ℕ → List ℕ → Read (List ℕ)
read_ports zero ports r = ok (ports, r)
read_ports (suc n) ports r = do (p, r') ← u16 r; read_ports n (ports ++ p ∷ []) r'

unfoldable pub decode : List ℕ → Result Authorization WireError
decode buf = do
  (v, r) ← u8 (new buf)
  if not (v == version) then err (bad_version v) else do
    (nonce, r) ← array nonce_len r
    (timestamp_nanos, r) ← u64 r
    (gate_id, r) ← array gate_id_len r
    (key_thumbprint, r) ← array thumbprint_len r
    (count, r) ← u8 r
    if bad_count count then err (bad_port_count count) else do
      (ports, r) ← read_ports count [] r
      (signature, r) ← array sig_len r
      if not (remaining r == 0)
          then err trailing_bytes
          else ok (record {
            nonce = nonce;
            timestamp_nanos = timestamp_nanos;
            gate_id = gate_id;
            key_thumbprint = key_thumbprint;
            ports = ports;
            signature = signature;
          })

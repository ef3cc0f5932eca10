-- ===== src/Lib.antt =====
-- spa-device: a gate that keeps its ports closed until a client sends one sealed and signed
-- datagram, a knock.
--
-- The parts and how they meet. spa-common (lib.rs) defines the knock's plaintext; spa-crypto (lib.rs)
-- seals it in the client and opens it in the gate; spa-core (lib.rs) decides, over ports (clock,
-- crypto, trust store, replay guard, gate writer) that spa-gated implements; the gate writer puts a
-- grant into a BPF map, which spa-ebpf (main.rs) reads for every packet; the grant's type is in
-- spa-ebpf-common (lib.rs). spa-gated also loads its configuration and watches a signed bundle.
--
-- Files and code:
--   Prelude         numbers, lists, results, equality tests, association lists, big-endian bytes
--   Wire            spa-common/src/lib.rs: Suite, Authorization, signing_bytes, encode; Wire/Reader and
--                   Wire/Decode: Reader and decode; Wire/Stream is decode on the bytes that are left
--   Core            spa-core/src/lib.rs: the traits as records, admit; admit_opened, admit_known and
--                   grant are its consecutive parts
--   Crypto          spa-crypto/src/lib.rs: the helpers; Crypto/Gate: GateKeypair, with open as
--                   open_packet; Crypto/Client: ClientKey, seal, seal_psk, seal_envelope
--   Bpf, Grant      the BPF maps; spa-ebpf-common/src/lib.rs: Grant, allows_port
--   Ebpf            spa-ebpf/src/main.rs: Layout, Frame (load, parse), Rate (rate_ok), Gate (tcp_gate,
--                   udp_gate, spa_gate)
--   Files           the file system, as an interface, and commands that write files
--   Gated           spa-gated/src: Config (config.rs), Replay, Trust and Writer (adapters.rs), Nft
--                   (nft.rs), Bundle (bundle.rs), Fetch (cp.rs), Audit (audit.rs, and the knock loop
--                   with its log), Daemon (the knock loop), Watch (watch_bundle), Provision
--                   (self-provisioning), Start (the start up to the knock loop) and Generate
--                   (the provision command), Refetch (the thread that fetches
--                   the bundle) and Notice (the log of watch_bundle), all main.rs
--   Client          spa-client/src/lib.rs: File (read_kv, get as get_field, port as port_field, arr),
--                   Knocker (Knocker, Enroller), Retry (with_open)
--   Cli             spa-client/src/main.rs: Main (main as parse_command), Keys (the commands that make
--                   keys and files), Descriptor (knock_descriptor), Confirm (confirm_open)
-- The other files hold theorems; files whose names end in Tests hold runs; Toy and Tables are
-- instances of the interfaces.
--
-- State and numbers. State is passed explicitly. Numbers are natural numbers; wrap-around,
-- saturation and the cut of a length to a byte are written out. An array of n bytes is a list with
-- IsArray n. Strings are their bytes. Errors are values of Result or Option.
--
-- Parameters. aws-lc-rs is the interfaces Primitives, Agreement and Signing, with the documented laws
-- LawfulPrimitives, LawfulAgreement and LawfulSigning; Crypto/Toy is an instance of them. The BPF
-- maps are BpfMap with LawfulHash or LawfulLru; Bpf/Tables is an instance. The file system is
-- FileSystem with LawfulFiles. toml, serde, serde_json, hex and reqwest are Formats, BundleFormat,
-- Json, Hex, HexEncode and Http, with LawfulHex, LawfulDigits and ReadsToml (Gated/Toml has the part
-- of TOML and of serde it is about); PKCS#8 is Pkcs8 with LawfulPkcs8.
-- Clock readings, random bytes, the probes of a port and the contents of files that are only read
-- are arguments.
--
-- Fuel. generate_raw has the code's own bound of 16 attempts; the port scan of a grant counts down
-- from at most 8; with_open counts down the attempts that it was asked for. A number has at most 20
-- decimal digits. confirm_open has one round for each sleep of 5 ms in its window, and two more, which
-- is enough since a round that goes on sleeps. Everything else is structural recursion.
--
-- Not modelled: name resolution and sockets, how the XDP program is loaded and attached, the texts of
-- addresses and of errors, what is printed, the asynchronous with_open (which is with_open on
-- other timers), the shell scripts and the deployment.
pub mod Prelude
pub mod Files
pub mod Wire
pub mod Core
pub mod Crypto
pub mod Bpf
pub mod Grant
pub mod Ebpf
pub mod Gated
pub mod Client
pub mod Cli

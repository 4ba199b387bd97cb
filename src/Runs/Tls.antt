-- ===== src/Runs/Tls.antt =====
-- Runs of the TLS set-up, and the theorems on it at concrete inputs.
use duh_go.Prelude.{ℕ, true, false, List, [], ◌∷◌, ◌++◌, some, none, str, ◌≡◌, refl}
use duh_go.Prelude.{if◌then◌else◌, text_eq, itoa}
use duh_go.Errors.{nil, plain}
use duh_go.Frames.{Bytes, ok, err}
use duh_go.Tls.{
  setup_tls, configure, load, load_files, from_file, with_defaults, assemble, server_defaults,
}
use duh_go.Tls.{generate_if, generate, identify, authenticate, admit, client_pool, client_identity}
use duh_go.Tls.Settings.{
  Platform, TlsConfig, Purpose, for_ca, for_server, empty_config, current, modify, done, within,
  lift, ◌>>=◌,
}
use duh_go.Tls.SelfSigned.{
  self_ca, self_cert, make_ca, make_cert, encoded, sign_cert, signing_ca, leaf, ca_template,
  server_template,
}
use duh_go.Tls.Network.{
  Interface, ip_net, ip_addr, to4, is_loopback, ip_text, outer_ip4, scan_addrs, scan_interfaces,
  discover_network_addresses, discover_network, lookup_names, first_byte,
}
use duh_go.Tls.Network.Outer.{AllOuter, discover_network_addresses-AllOuter}
use duh_go.Tls.Ensures.{Gives}
use duh_go.Tls.Forgets.{forget_pems, SameOutcome, setup_tls-forget_pems}
use duh_go.Tls.Fresh.{Works}
use duh_go.Tls.Auto.{set_up_from, setup_tls_auto}
use duh_go.Tls.Complete.{IsReady, setup_tls-IsReady}
use duh_go.Tls.ClientAuth.{IsGuarded, setup_tls-IsGuarded}
use duh_go.Samples.{sample_go}

-- A host with the loopback interface, one that is down, and one with an address.
abbrev host : List Interface
host =
    record { up = true; loopback = true; addrs = ok (ip_net (127 ∷ 0 ∷ 0 ∷ 1 ∷ []) ∷ []) }
    ∷ record { up = false; loopback = false; addrs = ok (ip_net (9 ∷ 9 ∷ 9 ∷ 9 ∷ []) ∷ []) }
    ∷ record {
      up = true;
      loopback = false;
      addrs = ok (
          ip_addr (127 ∷ 0 ∷ 0 ∷ 2 ∷ []) ∷ ip_net (10 ∷ 0 ∷ 0 ∷ 7 ∷ []) ∷ ip_net (1 ∷ 2 ∷ []) ∷ []);
    }
    ∷ []

-- A pool is the certificates in it, a pair its two texts, and a key a number.
abbrev bench : Platform (List Bytes) (Bytes × Bytes) Bytes ℕ
bench = record {
  read_file = λ name.
      if text_eq name (str "ca.pem") then ok (str "CA") else err (plain (str "no such file"));
  system_cert_pool = ok [];
  new_cert_pool = [];
  append_certs = λ pem pool. pool ++ pem ∷ [];
  key_pair = λ cert key. ok (cert, key);
  certificate_of = λ pair. pair.0 ∷ [];
  private_key_of = λ pair. 1;
  parse_certificate = λ b. ok b;
  generate_key = λ purpose. ok 1;
  create_certificate = λ template parent key signer. ok template.organization;
  encode_pem = λ kind b. (kind ++ b, nil);
  marshal_key = λ key. ok (key ∷ []);
  interfaces = ok host;
  lookup_addr = λ ip. [];
  parse_ip = λ ip. none;
  now = 0;
  in_ten_years = 1;
  default_config = λ given fallback. elim given [ none ↦ fallback | some c ↦ c ];
  default_text = λ given fallback. if text_eq given [] then fallback else given;
}

abbrev plain_config : TlsConfig (List Bytes) (Bytes × Bytes)
plain_config = record {
  ca_file = [];
  ca_key_file = [];
  key_file = [];
  cert_file = [];
  auto_tls = false;
  min_version = 0;
  client_auth = 0;
  client_auth_ca_file = [];
  client_auth_key_file = [];
  client_auth_cert_file = [];
  insecure_skip_verify = false;
  ca_pem = none;
  ca_key_pem = none;
  key_pem = none;
  cert_pem = none;
  client_auth_ca_pem = none;
  client_auth_key_pem = none;
  client_auth_cert_pem = none;
  client_auth_server_name = [];
  server_org_name = [];
  server_tls = none;
  client_tls = none;
}

abbrev automatic : TlsConfig (List Bytes) (Bytes × Bytes)
automatic = record plain_config { auto_tls = true }

abbrev with_pem : TlsConfig (List Bytes) (Bytes × Bytes)
with_pem = record plain_config { ca_pem = some (str "CA") }

abbrev guarded : TlsConfig (List Bytes) (Bytes × Bytes)
guarded = record plain_config { client_auth = 4; ca_file = str "ca.pem" }

-- What a run computes with.
steps : Unit {0}
unfolding setup_tls configure load load_files from_file assemble generate_if generate identify
    authenticate admit client_pool client_identity current modify done within lift ◌>>=◌ self_ca
    self_cert make_ca make_cert encoded sign_cert signing_ca leaf ca_template server_template to4
    is_loopback ip_text outer_ip4 scan_addrs scan_interfaces discover_network_addresses
    discover_network lookup_names with_defaults text_eq
steps = tt

automatic_works : (setup_tls bench automatic).1 ≡ ok tt
unfolding steps
automatic_works = refl

-- The CA that is given as a buffer is not trusted.
pem_is_lost : (setup_tls bench with_pem).0.client_tls ≡ (setup_tls bench plain_config).0.client_tls
unfolding steps
pem_is_lost = refl

setup_tls-forget_pems_example :
    SameOutcome bench (setup_tls bench (forget_pems bench with_pem)) (setup_tls bench with_pem)
setup_tls-forget_pems_example = setup_tls-forget_pems bench with_pem refl

setup_tls-IsReady_example : Gives (λ _. IsReady bench) (setup_tls bench automatic)
setup_tls-IsReady_example = setup_tls-IsReady bench automatic refl refl

guarded_works : (setup_tls bench guarded).1 ≡ ok tt
unfolding steps
guarded_works = refl

setup_tls-IsGuarded_example : Gives (λ _. IsGuarded bench) (setup_tls bench guarded)
setup_tls-IsGuarded_example = setup_tls-IsGuarded bench guarded refl refl

host_addresses : discover_network_addresses (ok host) ≡ ok (str "10.0.0.7" ∷ [])
unfolding steps itoa
host_addresses = refl

discover_network_addresses-AllOuter_example : AllOuter (discover_network_addresses (ok host))
discover_network_addresses-AllOuter_example = discover_network_addresses-AllOuter (ok host)

-- A host whose certificates name their key and the key that has signed them.
abbrev honest : Platform (List Bytes) (Bytes × Bytes) Bytes ℕ
honest = record bench {
  private_key_of = λ pair. first_byte pair.1;
  generate_key = λ purpose. elim purpose [ for_ca ↦ ok 1 | for_server ↦ ok 2 ];
  create_certificate =
      λ template parent key signer. ok (template.serial_number ∷ key ∷ signer ∷ []);
  encode_pem = λ kind b. (b, nil);
}

honest_works : Works honest
unfolding steps itoa
honest_works = record {
  new_key = λ purpose. elim purpose [ for_ca ↦ 1 | for_server ↦ 2 ];
  signed = λ template parent key signer. template.serial_number ∷ key ∷ signer ∷ [];
  parsed = λ b. b;
  pem = λ kind b. b;
  der = λ key. key ∷ [];
  pair = λ b key. (b, key ∷ []);
  network = record { ip_addresses = str "10.0.0.7" ∷ []; dns_names = [] };
  generates = λ p. generated p;
  signs = λ t parent key signer. refl;
  parses = λ t parent key signer. refl;
  encodes = λ kind b. refl;
  marshals = λ key. refl;
  pairs = λ t parent key signer. refl;
  first_of_pair = λ b key. refl;
  key_of_pair = λ b key. refl;
  discovers = refl;
}
  where
    generated : (p : Purpose) → honest.generate_key p ≡ ok (elim p [ for_ca ↦ 1 | for_server ↦ 2 ])
    generated for_ca = refl
    generated for_server = refl

abbrev mutual_tls : TlsConfig (List Bytes) (Bytes × Bytes)
mutual_tls = record automatic { client_auth = 4 }

-- The server's certificate is signed by the CA's key, and the clients' CA is that CA.
mutual_tls_server : (setup_tls honest mutual_tls).0.cert_pem ≡ some (0xC0FFEE ∷ 2 ∷ 1 ∷ [])
unfolding steps
mutual_tls_server = refl

setup_tls_auto_example : setup_tls honest mutual_tls ≡ (
  set_up_from honest honest_works mutual_tls
      (honest.default_config none (server_defaults honest mutual_tls))
      (honest.default_config none empty_config),
  ok tt,
)
setup_tls_auto_example =
    setup_tls_auto honest honest_works mutual_tls
      record {
        ca = refl;
        ca_key = refl;
        key = refl;
        cert = refl;
        client_auth_ca = refl;
        client_auth_key = refl;
        client_auth_cert = refl;
      }
      refl refl

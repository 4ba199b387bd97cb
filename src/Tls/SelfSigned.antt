-- ===== src/Tls/SelfSigned.antt =====
-- `selfCA` and `selfCert` of tls.go.
use duh_go.Prelude.{ℕ, ◌+◌, ◌*◌, true, false, List, [], ◌∷◌, Option, none, some, Text, str}
use duh_go.Prelude.{if◌then◌else◌, ◌&&◌}
use mathlib.Core.Bool.{not}
use duh_go.Errors.{GoError, plain, is_nil, Go, wrap}
use duh_go.Frames.{Bytes, ok, err}
use duh_go.Tls.Network.{NetInfo, discover_network}
use duh_go.Tls.Settings.{
  Platform, TlsConfig, Template, digital_signature, key_encipherment, cert_sign, for_ca, for_server,
  Setup, ◌>>=◌, ◌>>◌, done, fail, lift, current, bytes_of, is_set,
}

-- Nanoseconds of 365 days.
abbrev pub one_year : ℕ
one_year = 365 * 24 * 3600 * 1000000000

abbrev pub parsed_ips : (Text → Option Bytes) → List Text → List Bytes
parsed_ips parse_ip [] = []
parsed_ips parse_ip (t ∷ ts) =
    let rest = parsed_ips parse_ip ts in elim (parse_ip t) [ none ↦ rest | some ip ↦ ip ∷ rest ]

module _ {Pool Pair Parsed Key : Type 0} (os : Platform Pool Pair Parsed Key) ⦃go : Go⦄ where
  abbrev pub Step : Type 0 → Type 0
  Step A = Setup (TlsConfig Pool Pair) A

  -- `conf.X = new(bytes.Buffer); if err := pem.Encode(conf.X, ...)`: the buffer is set, with what has
  -- been written, before the error is looked at.
  unfoldable pub encoded :
      (Bytes → TlsConfig Pool Pair → TlsConfig Pool Pair) → Text → Bytes × GoError → Step (Unit {0})
  encoded set prefix (b, e) c =
      if is_nil e then (set b c, ok tt) else (set b c, err (wrap prefix e))

  -- The certificate of `selfCA`.
  unfoldable pub ca_template : TlsConfig Pool Pair → Template
  ca_template c = record {
    serial_number = 2319;
    organization = c.server_org_name;
    not_before = os.now;
    not_after = os.in_ten_years;
    key_usage = digital_signature ∷ cert_sign ∷ [];
    is_ca = true;
    dns_names = [];
    ip_addresses = [];
  }

  unfoldable pub make_ca : TlsConfig Pool Pair → Step (Unit {0})
  make_ca c = do
    key ← lift (str "while generating pubic/private key pair: ") (os.generate_key for_ca)
    signed ←
        lift (str "while self signing CA certificate: ")
          (os.create_certificate (ca_template c) none key key)
    encoded (λ b c. record c { ca_pem = some b }) (str "while encoding CERTIFICATE PEM: ")
        (os.encode_pem (str "CERTIFICATE") signed)
    key_bytes ← lift (str "while marshalling EC private key: ") (os.marshal_key key)
    encoded (λ b c. record c { ca_key_pem = some b })
        (str "while encoding EC private key into PEM: ")
        (os.encode_pem (str "EC PRIVATE KEY") key_bytes)

  -- `selfCA`
  unfoldable pub self_ca : Step (Unit {0})
  self_ca = do c ← current; if is_set c.ca_pem && is_set c.ca_key_pem then done else make_ca c

  -- The certificate of `selfCert`, with the names and addresses of the host.
  unfoldable pub server_template : TlsConfig Pool Pair → NetInfo → Template
  server_template c network = record {
    serial_number = 0xC0FFEE;
    organization = c.server_org_name;
    not_before = os.now;
    not_after = os.now + one_year;
    key_usage = key_encipherment ∷ digital_signature ∷ [];
    is_ca = false;
    dns_names = str "localhost" ∷ network.dns_names;
    ip_addresses =
        (0 ∷ 0 ∷ 0 ∷ 0 ∷ 0 ∷ 0 ∷ 0 ∷ 0 ∷ 0 ∷ 0 ∷ 255 ∷ 255 ∷ 127 ∷ 0 ∷ 0 ∷ 1 ∷ [])
        ∷ parsed_ips os.parse_ip network.ip_addresses;
  }

  -- The first certificate of the CA's pair.
  unfoldable pub leaf : List Bytes → Step Bytes
  leaf [] c = (c, err (plain (str "no certificates found in CA PEM")))
  leaf (b ∷ rest) c = (c, ok b)

  -- `if conf.CaPEM == nil && conf.CaKeyPEM == nil`
  unfoldable pub signing_ca : TlsConfig Pool Pair → Step (Unit {0})
  signing_ca c =
      if not (is_set c.ca_pem) && not (is_set c.ca_key_pem)
      then fail (plain (str "unable to generate server certs without a signing CA"))
      else done

  -- The signed certificate of the server.
  unfoldable pub sign_cert : TlsConfig Pool Pair → NetInfo → Key → Step Bytes
  sign_cert c network key = do
    signing_ca c
    pair ←
        lift (str "while reading generated PEMs: ")
          (os.key_pair (bytes_of c.ca_pem) (bytes_of c.ca_key_pem))
    first ← leaf (os.certificate_of pair)
    parent ← lift (str "while parsing CA Cert: ") (os.parse_certificate first)
    lift (str "while self signing server cert: ") (
        os.create_certificate (server_template c network) (some parent) key
          (os.private_key_of pair))

  unfoldable pub make_cert : TlsConfig Pool Pair → Step (Unit {0})
  make_cert c = do
    network ←
        lift (str "while detecting ip and host names: ")
          (discover_network os.interfaces os.lookup_addr)
    key ← lift (str "while generating pubic/private key pair: ") (os.generate_key for_server)
    signed ← sign_cert c network key
    encoded (λ b c. record c { cert_pem = some b }) (str "while encoding CERTIFICATE PEM: ")
        (os.encode_pem (str "CERTIFICATE") signed)
    key_bytes ← lift (str "while encoding EC Marshalling: ") (os.marshal_key key)
    encoded (λ b c. record c { key_pem = some b }) (str "while encoding EC KEY PEM: ")
        (os.encode_pem (str "EC PRIVATE KEY") key_bytes)

  -- `selfCert`
  unfoldable pub self_cert : Step (Unit {0})
  self_cert = do c ← current; if is_set c.cert_pem && is_set c.key_pem then done else make_cert c

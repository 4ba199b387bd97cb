-- ===== src/Tls/Settings.antt =====
-- The configuration of tls.go, what `SetupTLS` calls, and the effects of its steps.
use duh_go.Prelude.{ℕ, Bool, true, false, List, [], Option, none, some, Text}
use duh_go.Errors.{GoError, Go, wrap}
use duh_go.Frames.{Bytes, Result, ok, err}
use duh_go.Tls.Network.{Interface}

-- The fields of a `tls.Config` that the code sets.
pub record Config (Pool Pair : Type 0) : Type 0 where
  pub cipher_suites : List Text
  pub client_auth : ℕ
  pub min_version : ℕ
  pub next_protos : List Text
  pub root_cas : Option Pool
  pub client_cas : Option Pool
  pub certificates : List Pair
  pub server_name : Text
  pub insecure_skip_verify : Bool

-- `&tls.Config{}`
abbrev pub empty_config : {Pool Pair : Type 0} → Config Pool Pair
empty_config = record {
  cipher_suites = [];
  client_auth = 0;
  min_version = 0;
  next_protos = [];
  root_cas = none;
  client_cas = none;
  certificates = [];
  server_name = [];
  insecure_skip_verify = false;
}

-- `TLSConfig`. A PEM buffer that is nil is `none`; a `client_auth` of 0 is `tls.NoClientCert`.
pub record TlsConfig (Pool Pair : Type 0) : Type 0 where
  pub ca_file : Text
  pub ca_key_file : Text
  pub key_file : Text
  pub cert_file : Text
  pub auto_tls : Bool
  pub min_version : ℕ
  pub client_auth : ℕ
  pub client_auth_ca_file : Text
  pub client_auth_key_file : Text
  pub client_auth_cert_file : Text
  pub insecure_skip_verify : Bool
  pub ca_pem : Option Bytes
  pub ca_key_pem : Option Bytes
  pub key_pem : Option Bytes
  pub cert_pem : Option Bytes
  pub client_auth_ca_pem : Option Bytes
  pub client_auth_key_pem : Option Bytes
  pub client_auth_cert_pem : Option Bytes
  pub client_auth_server_name : Text
  pub server_org_name : Text
  pub server_tls : Option (Config Pool Pair)
  pub client_tls : Option (Config Pool Pair)

pub data Usage : Type 0 where
  digital_signature key_encipherment cert_sign : Usage

-- The `x509.Certificate` that is to be signed. Both have the extended usages of a client and a
-- server.
pub record Template : Type 0 where
  pub serial_number : ℕ
  pub organization : Text
  pub not_before : ℕ
  pub not_after : ℕ
  pub key_usage : List Usage
  pub is_ca : Bool
  pub dns_names : List Text
  pub ip_addresses : List Bytes

-- The two keys that are generated.
pub data Purpose : Type 0 where
  for_ca for_server : Purpose

-- What the code calls and does not define: files, certificates, the network, the clock, and
-- `set.Default`, which fills an unset pointer or text. A parent of none signs a certificate by its
-- own key.
pub record Platform (Pool Pair Parsed Key : Type 0) : Type 0 where
  pub read_file : Text → Result Bytes
  pub system_cert_pool : Result Pool
  pub new_cert_pool : Pool
  pub append_certs : Bytes → Pool → Pool
  pub key_pair : Bytes → Bytes → Result Pair
  pub certificate_of : Pair → List Bytes
  pub private_key_of : Pair → Key
  pub parse_certificate : Bytes → Result Parsed
  pub generate_key : Purpose → Result Key
  pub create_certificate : Template → Option Parsed → Key → Key → Result Bytes
  pub encode_pem : Text → Bytes → Bytes × GoError
  pub marshal_key : Key → Result Bytes
  pub interfaces : Result (List Interface)
  pub lookup_addr : Text → List Text
  pub parse_ip : Text → Option Bytes
  pub now : ℕ
  pub in_ten_years : ℕ
  pub default_config : Option (Config Pool Pair) → Config Pool Pair → Config Pool Pair
  pub default_text : Text → Text → Text

-- A step on the configuration, which keeps what has been set when it fails.
abbrev pub Setup : Type 0 → Type 0 → Type 0
Setup C A = C → C × Result A

abbrev pub bound : {C A B : Type 0} → (A → Setup C B) → C × Result A → C × Result B
bound f (c, ok a) = f a c
bound f (c, err e) = (c, err e)

infixl 5 ◌>>=◌ ◌>>◌
unfoldable pub ◌>>=◌ : {C A B : Type 0} → Setup C A → (A → Setup C B) → Setup C B
◌>>=◌ m f c = bound f (m c)

abbrev pub ◌>>◌ : {C B : Type 0} → Setup C (Unit {0}) → Setup C B → Setup C B
m >> k = m >>= λ _. k

unfoldable pub done : {C : Type 0} → Setup C (Unit {0})
done c = (c, ok tt)

unfoldable pub fail : {C A : Type 0} → GoError → Setup C A
fail e c = (c, err e)

-- The configuration as it is.
unfoldable pub current : {C : Type 0} → Setup C C
current c = (c, ok c)

unfoldable pub modify : {C : Type 0} → (C → C) → Setup C (Unit {0})
modify f c = (f c, ok tt)

abbrev pub explain : ⦃go : Go⦄ → {A : Type 0} → Text → Result A → Result A
explain prefix (ok a) = ok a
explain prefix (err e) = err (wrap prefix e)

-- A call whose error is returned with a prefix.
unfoldable pub lift : ⦃go : Go⦄ → {C A : Type 0} → Text → Result A → Setup C A
lift prefix r c = (c, explain prefix r)

abbrev pub prefixed : ⦃go : Go⦄ → {C A : Type 0} → Text → C × Result A → C × Result A
prefixed prefix (c, r) = (c, explain prefix r)

-- A step whose error is returned with a prefix.
unfoldable pub within : ⦃go : Go⦄ → {C A : Type 0} → Text → Setup C A → Setup C A
within prefix m c = prefixed prefix (m c)

-- `buffer.Bytes()`, which is a fault for a nil buffer.
abbrev pub bytes_of : Option Bytes → Bytes
bytes_of none = []
bytes_of (some b) = b

abbrev pub is_set : {A : Type 0} → Option A → Bool
is_set none = false
is_set (some a) = true

-- An assignment to a field behind a pointer, which is a fault for a nil pointer.
abbrev pub change : {A : Type 0} → (A → A) → Option A → Option A
change f none = none
change f (some t) = some (f t)

-- ===== src/Tls.antt =====
-- tls.go: `SetupTLS`, over what it calls of Go's crypto libraries and of the operating system.
--
-- A pool of certificates, a key pair, a parsed certificate and a private key are any types. The log
-- lines of `SetupTLS` change nothing that the program reads, and are left out.
pub mod Network
pub mod Settings
pub mod SelfSigned
pub mod Ensures
pub mod Forgets
pub mod Authority
pub mod Complete
pub mod ClientAuth
pub mod Fresh
pub mod Auto
use duh_go.Prelude.{ℕ, Bool, true, false, List, [], ◌∷◌, ◌++◌, Option, none, some, Text, str, ◌==◌}
use duh_go.Prelude.{if◌then◌else◌, ◌&&◌, text_eq}
use mathlib.Core.Bool.{not}
use duh_go.Errors.{GoError, nil, plain, Go, wrap}
use duh_go.Frames.{Bytes, Result, ok, err}
use duh_go.Tls.Settings.{
  Platform, TlsConfig, Config, empty_config, Setup, bound, ◌>>=◌, ◌>>◌, done, lift, within, current,
  modify, bytes_of, is_set, change,
}
use duh_go.Tls.SelfSigned.{Step, self_ca, self_cert}

-- `tls.VersionTLS13`, which `SetupTLS` takes where no version is given.
abbrev pub version_tls13 : ℕ
version_tls13 = 0x304

abbrev pub cipher_suite_names : List Text
cipher_suite_names =
    str "TLS_ECDHE_ECDSA_WITH_AES_128_GCM_SHA256"
    ∷ str "TLS_ECDHE_RSA_WITH_AES_128_GCM_SHA256"
    ∷ str "TLS_ECDHE_ECDSA_WITH_AES_256_GCM_SHA384"
    ∷ str "TLS_ECDHE_RSA_WITH_AES_256_GCM_SHA384"
    ∷ str "TLS_ECDHE_ECDSA_WITH_CHACHA20_POLY1305"
    ∷ str "TLS_ECDHE_RSA_WITH_CHACHA20_POLY1305"
    ∷ str "TLS_ECDHE_ECDSA_WITH_AES_128_CBC_SHA256"
    ∷ str "TLS_ECDHE_RSA_WITH_AES_128_CBC_SHA256"
    ∷ str "TLS_ECDHE_ECDSA_WITH_AES_128_CBC_SHA"
    ∷ str "TLS_ECDHE_RSA_WITH_AES_128_CBC_SHA"
    ∷ str "TLS_ECDHE_ECDSA_WITH_AES_256_CBC_SHA"
    ∷ str "TLS_ECDHE_RSA_WITH_AES_256_CBC_SHA"
    ∷ str "TLS_RSA_WITH_AES_128_GCM_SHA256"
    ∷ str "TLS_RSA_WITH_AES_256_GCM_SHA384"
    ∷ str "TLS_RSA_WITH_AES_128_CBC_SHA256"
    ∷ str "TLS_RSA_WITH_AES_128_CBC_SHA"
    ∷ str "TLS_RSA_WITH_AES_256_CBC_SHA"
    ∷ []

module _ {Pool Pair Parsed Key : Type 0} (os : Platform Pool Pair Parsed Key) ⦃go : Go⦄ where
  abbrev pub read_pem : Text → Result Bytes → Result (Option Bytes)
  read_pem name (ok b) = ok (some b)
  read_pem name (err e) = err (wrap (str "while reading file '" ++ (name ++ str "': ")) e)

  -- `fromFile`
  unfoldable pub from_file : Text → Result (Option Bytes)
  from_file name = if text_eq name [] then ok none else read_pem name (os.read_file name)

  -- `conf.X, err = fromFile(...); if err != nil { return err }`, by what the file gives.
  unfoldable pub load :
      (Option Bytes → TlsConfig Pool Pair → TlsConfig Pool Pair)
      → Result (Option Bytes)
      → Step os (Unit {0})
  load set (ok pem) c = (set pem c, ok tt)
  load set (err e) c = (set none c, err e)

  -- The seven files.
  unfoldable pub load_files : Step os (Unit {0})
  load_files = do
    c ← current
    load (λ pem c. record c { ca_pem = pem }) (from_file c.ca_file)
    load (λ pem c. record c { ca_key_pem = pem }) (from_file c.ca_key_file)
    load (λ pem c. record c { key_pem = pem }) (from_file c.key_file)
    load (λ pem c. record c { cert_pem = pem }) (from_file c.cert_file)
    load (λ pem c. record c { client_auth_ca_pem = pem }) (from_file c.client_auth_ca_file)
    load (λ pem c. record c { client_auth_key_pem = pem }) (from_file c.client_auth_key_file)
    load (λ pem c. record c { client_auth_cert_pem = pem }) (from_file c.client_auth_cert_file)

  -- The branch of `AutoTLS`.
  unfoldable pub generate : Step os (Unit {0})
  generate = do
    modify (λ c. record c {
      server_org_name = os.default_text c.server_org_name (str "Self Signed Org");
    })
    within (str "while generating self signed CA certs: ") (self_ca os)
    within (str "while generating self signed server certs: ") (self_cert os)

  -- `conf.ServerTLS.f = ...` and `conf.ClientTLS.f = ...`
  abbrev pub on_server :
      (Config Pool Pair → Config Pool Pair) → TlsConfig Pool Pair → TlsConfig Pool Pair
  on_server f c = record c { server_tls = change f c.server_tls }

  abbrev pub on_client :
      (Config Pool Pair → Config Pool Pair) → TlsConfig Pool Pair → TlsConfig Pool Pair
  on_client f c = record c { client_tls = change f c.client_tls }

  -- The pool to which the CA is added: the system's, or an empty one if that fails to load.
  abbrev pub root_pool : Result Pool → Pool
  root_pool (ok pool) = pool
  root_pool (err e) = os.new_cert_pool

  -- The two `RootCAs`.
  abbrev pub trust : Option Bytes → TlsConfig Pool Pair → TlsConfig Pool Pair
  trust none c = c
  trust (some pem) c =
      let pool = os.append_certs pem (root_pool os.system_cert_pool) in
      on_client (λ t. record t { root_cas = some pool })
        (on_server (λ t. record t { root_cas = some pool }) c)

  abbrev pub identified : Pair → TlsConfig Pool Pair → TlsConfig Pool Pair
  identified pair c =
      on_client (λ t. record t { certificates = pair ∷ [] })
        (on_server (λ t. record t { certificates = pair ∷ [] }) c)

  -- The two `Certificates`, if there are both a key and a certificate.
  unfoldable pub identify : Option Bytes → Option Bytes → Step os (Unit {0})
  identify (some key) (some cert) = do
    pair ← lift (str "while parsing server certificate and private key: ") (os.key_pair cert key)
    modify (identified pair)
  identify none cert = done
  identify (some key) none = done

  -- The CA for the clients: their own, or else the server's.
  abbrev pub client_ca : Option Bytes → Option Bytes → Option Bytes
  client_ca (some pem) ca = some pem
  client_ca none ca = ca

  unfoldable pub client_pool : Option Bytes → Step os Pool
  client_pool none c = (c, err (plain (str "client auth enabled, but no CA's provided")))
  client_pool (some pem) c = (c, ok (os.append_certs pem os.new_cert_pool))

  unfoldable pub client_identity : Option Bytes → Option Bytes → Step os (Unit {0})
  client_identity (some key) (some cert) = do
    pair ← lift (str "while parsing client certificate and private key: ") (os.key_pair cert key)
    modify (on_client (λ t. record t { certificates = pair ∷ [] }))
  client_identity none cert = done
  client_identity (some key) none = done

  -- The branch for client authentication.
  unfoldable pub admit : TlsConfig Pool Pair → Step os (Unit {0})
  admit c = do
    pool ← client_pool (client_ca c.client_auth_ca_pem c.ca_pem)
    modify (on_server (λ t. record t { client_cas = some pool }))
    client_identity c.client_auth_key_pem c.client_auth_cert_pem

  unfoldable pub authenticate : Step os (Unit {0})
  authenticate = do c ← current; if c.client_auth == 0 then done else admit c

  abbrev pub min_tls_version : ℕ → ℕ
  min_tls_version v = if v == 0 then version_tls13 else v

  -- What the server's configuration is filled from.
  abbrev pub server_defaults : TlsConfig Pool Pair → Config Pool Pair
  server_defaults c = record empty_config {
    cipher_suites = cipher_suite_names;
    client_auth = c.client_auth;
    min_version = min_tls_version c.min_version;
    next_protos = str "h2" ∷ str "http/1.1" ∷ [];
  }

  -- The two configurations that are there afterwards.
  unfoldable pub with_defaults : TlsConfig Pool Pair → TlsConfig Pool Pair
  with_defaults c = record c {
    server_tls = some (os.default_config c.server_tls (server_defaults c));
    client_tls = some (os.default_config c.client_tls empty_config);
  }

  -- The last two assignments.
  abbrev pub named : TlsConfig Pool Pair → TlsConfig Pool Pair
  named c =
      on_client
        (λ t. record t {
          server_name = c.client_auth_server_name;
          insecure_skip_verify = c.insecure_skip_verify;
        })
        c

  unfoldable pub generate_if : TlsConfig Pool Pair → Step os (Unit {0})
  generate_if c = if c.auto_tls then generate else done

  -- `SetupTLS`, once the files are read.
  unfoldable pub assemble : Step os (Unit {0})
  assemble = do
    c ← current
    generate_if c
    modify (λ c. trust c.ca_pem c)
    c ← current
    identify c.key_pem c.cert_pem
    authenticate
    modify named

  unfoldable pub configure : Step os (Unit {0})
  configure = do modify with_defaults; load_files; assemble

  -- `SetupTLS` of a configuration that is not nil.
  unfoldable pub setup_tls : Step os (Unit {0})
  setup_tls = do c ← current; if is_set c.server_tls && is_set c.client_tls then done else configure

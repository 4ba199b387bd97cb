-- ===== src/Tls/Fresh.antt =====
-- `SetupTLS` of tls.go with AutoTLS and nothing else, where all that it calls works: the
-- certificates that it makes, and who has signed them.
use duh_go.Prelude.{[], ◌∷◌, Option, none, some, Text, str, ◌≡◌, refl}
use duh_go.Prelude.{text_eq}
use duh_go.Errors.{nil, Go}
use duh_go.Frames.{Bytes, ok}
use duh_go.Tls.{load_files, load, from_file, generate}
use duh_go.Tls.Settings.{
  Platform, TlsConfig, Template, Purpose, for_ca, for_server, current, modify, done, within, lift,
  ◌>>=◌,
}
use duh_go.Tls.SelfSigned.{
  self_ca, self_cert, make_ca, make_cert, encoded, sign_cert, signing_ca, leaf, ca_template,
  server_template,
}
use duh_go.Tls.Forgets.{forget_pems}
use duh_go.Tls.Network.{NetInfo, discover_network}

abbrev certificate_kind : Text
certificate_kind = str "CERTIFICATE"

abbrev key_kind : Text
key_kind = str "EC PRIVATE KEY"

-- Crypto libraries and a host that work: keys are generated, templates are signed, what has been
-- signed parses, and a certificate and the key that it was signed for are a pair again once both
-- have been through PEM.
pub record Works {Pool Pair Parsed Key : Type 0} (os : Platform Pool Pair Parsed Key) : Type 0 where
  pub new_key : Purpose → Key
  pub signed : Template → Option Parsed → Key → Key → Bytes
  pub parsed : Bytes → Parsed
  pub pem : Text → Bytes → Bytes
  pub der : Key → Bytes
  pub pair : Bytes → Key → Pair
  pub network : NetInfo
  pub generates : (p : Purpose) → os.generate_key p ≡ ok (new_key p)
  pub signs :
      (t : Template) (parent : Option Parsed) (key signer : Key)
      → os.create_certificate t parent key signer ≡ ok (signed t parent key signer)
  pub parses :
      (t : Template) (parent : Option Parsed) (key signer : Key)
      → os.parse_certificate (signed t parent key signer) ≡ ok (parsed (signed t parent key signer))
  pub encodes : (kind : Text) (b : Bytes) → os.encode_pem kind b ≡ (pem kind b, nil)
  pub marshals : (key : Key) → os.marshal_key key ≡ ok (der key)
  pub pairs :
      (t : Template) (parent : Option Parsed) (key signer : Key)
      → os.key_pair (pem certificate_kind (signed t parent key signer)) (pem key_kind (der key))
        ≡ ok (pair (signed t parent key signer) key)
  pub first_of_pair : (b : Bytes) (key : Key) → os.certificate_of (pair b key) ≡ b ∷ []
  pub key_of_pair : (b : Bytes) (key : Key) → os.private_key_of (pair b key) ≡ key
  pub discovers : discover_network os.interfaces os.lookup_addr ≡ ok network

-- No file is named.
pub record HasNoFiles {Pool Pair : Type 0} (c : TlsConfig Pool Pair) : Type 0 where
  pub ca : c.ca_file ≡ []
  pub ca_key : c.ca_key_file ≡ []
  pub key : c.key_file ≡ []
  pub cert : c.cert_file ≡ []
  pub client_auth_ca : c.client_auth_ca_file ≡ []
  pub client_auth_key : c.client_auth_key_file ≡ []
  pub client_auth_cert : c.client_auth_cert_file ≡ []

module _ {Pool Pair Parsed Key : Type 0} (os : Platform Pool Pair Parsed Key) ⦃go : Go⦄
    (w : Works os) where
  -- The CA's certificate: signed by its own key.
  abbrev pub ca_certificate : TlsConfig Pool Pair → Bytes
  ca_certificate c = w.signed (ca_template os c) none (w.new_key for_ca) (w.new_key for_ca)

  -- The server's certificate, for the names of the host: signed by the CA, with the CA's key.
  abbrev pub server_certificate : TlsConfig Pool Pair → Bytes
  server_certificate c =
      w.signed (server_template os c w.network) (some (w.parsed (ca_certificate c)))
        (w.new_key for_server) (w.new_key for_ca)

  encoded_ok :
      (set : Bytes → TlsConfig Pool Pair → TlsConfig Pool Pair) (prefix kind : Text) (b : Bytes)
      (c : TlsConfig Pool Pair)
      → encoded os set prefix (os.encode_pem kind b) c ≡ (set (w.pem kind b) c, ok tt)
  unfolding encoded
  encoded_ok set prefix kind b c = rw (w.encodes kind b) refl

  -- `selfCA` without a CA.
  make_ca_lem :
      (c d : TlsConfig Pool Pair)
      → make_ca os c d ≡ (
        record d {
          ca_pem = some (w.pem certificate_kind (ca_certificate c));
          ca_key_pem = some (w.pem key_kind (w.der (w.new_key for_ca)));
        },
        ok tt,
      )
  unfolding make_ca lift encoded ca_template ◌>>=◌
  make_ca_lem c d = rw (w.generates, w.signs, w.encodes, w.marshals, w.encodes) refl

  -- `selfCert` with the CA of `make_ca`.
  make_cert_lem :
      (c d : TlsConfig Pool Pair)
      → c.ca_pem ≡ some (w.pem certificate_kind (ca_certificate c))
      → c.ca_key_pem ≡ some (w.pem key_kind (w.der (w.new_key for_ca)))
      → make_cert os c d ≡ (
        record d {
          cert_pem = some (w.pem certificate_kind (server_certificate c));
          key_pem = some (w.pem key_kind (w.der (w.new_key for_server)));
        },
        ok tt,
      )
  unfolding make_cert sign_cert signing_ca leaf lift encoded ca_template server_template done ◌>>=◌
  make_cert_lem c d h k =
      rw
        (
          w.discovers, w.generates, h, k, w.pairs, w.first_of_pair, w.parses, w.key_of_pair,
          w.signs, w.encodes, w.marshals, w.encodes,
        )
        refl

  -- A configuration without its PEM buffers, and the organization that its certificates name.
  abbrev pub organized : TlsConfig Pool Pair → TlsConfig Pool Pair
  organized c = record (forget_pems os c) {
    server_org_name = os.default_text c.server_org_name (str "Self Signed Org");
  }

  -- It with the CA that is made for it.
  abbrev pub with_authority : TlsConfig Pool Pair → TlsConfig Pool Pair
  with_authority c = record (organized c) {
    ca_pem = some (w.pem certificate_kind (ca_certificate (organized c)));
    ca_key_pem = some (w.pem key_kind (w.der (w.new_key for_ca)));
  }

  -- It with the server's certificate too.
  abbrev pub certified : TlsConfig Pool Pair → TlsConfig Pool Pair
  certified c = record (with_authority c) {
    cert_pem = some (w.pem certificate_kind (server_certificate (organized c)));
    key_pem = some (w.pem key_kind (w.der (w.new_key for_server)));
  }

  self_ca_lem : (c : TlsConfig Pool Pair) → self_ca os (organized c) ≡ (with_authority c, ok tt)
  unfolding self_ca current ◌>>=◌
  self_ca_lem c = make_ca_lem (organized c) (organized c)

  self_cert_lem : (c : TlsConfig Pool Pair) → self_cert os (with_authority c) ≡ (certified c, ok tt)
  unfolding self_cert current ◌>>=◌ ca_template server_template
  self_cert_lem c = make_cert_lem (with_authority c) (with_authority c) refl refl

  pub generate_lem :
      (c : TlsConfig Pool Pair) → generate os (forget_pems os c) ≡ (certified c, ok tt)
  unfolding generate modify within ◌>>=◌
  generate_lem c = rw (self_ca_lem c, self_cert_lem c) refl

  pub load_files_lem :
      (c : TlsConfig Pool Pair) → HasNoFiles c → load_files os c ≡ (forget_pems os c, ok tt)
  unfolding load_files from_file load current ◌>>=◌ text_eq
  load_files_lem c h =
      rw (h.ca, h.ca_key, h.key, h.cert, h.client_auth_ca, h.client_auth_key, h.client_auth_cert)
        refl

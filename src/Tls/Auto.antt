-- ===== src/Tls/Auto.antt =====
-- The configuration that `SetupTLS` of tls.go makes with AutoTLS and nothing else, where all that it
-- calls works.
use duh_go.Prelude.{ℕ, Bool, true, false, [], ◌∷◌, Option, none, some, ◌≡◌, refl, ap, ◌∙◌, ◌&&◌}
use duh_go.Prelude.{if◌then◌else◌, ◌==◌}
use duh_go.Errors.{Go}
use duh_go.Frames.{Bytes, ok}
use duh_go.Tls.{
  setup_tls, configure, with_defaults, server_defaults, assemble, generate_if, generate, trust,
  root_pool, identify, authenticate, admit, client_pool, client_identity, named,
}
use duh_go.Tls.Settings.{
  Platform, TlsConfig, Config, empty_config, for_server, is_set, bytes_of, current, modify, done,
  lift, bound, ◌>>=◌, ◌>>◌,
}
use duh_go.Tls.SelfSigned.{Step, ca_template, server_template}
use duh_go.Tls.Forgets.{forget_pems}
use duh_go.Tls.Fresh.{
  Works, HasNoFiles, organized, server_certificate, certified, generate_lem, load_files_lem,
}

module _ {Pool Pair Parsed Key : Type 0} (os : Platform Pool Pair Parsed Key) ⦃go : Go⦄
    (w : Works os) where
  -- A pool with the CA that has been made.
  abbrev pub with_ca : TlsConfig Pool Pair → Pool → Pool
  with_ca c pool = os.append_certs (bytes_of (certified os w c).ca_pem) pool

  -- The server's certificate and its key.
  abbrev pub server_pair : TlsConfig Pool Pair → Pair
  server_pair c = w.pair (server_certificate os w (organized os w c)) (w.new_key for_server)

  -- A server that asks for client authentication takes the clients' certificates of a pool.
  abbrev pub admitted : ℕ → Pool → Config Pool Pair → Config Pool Pair
  admitted client_auth pool t = if client_auth == 0 then t else record t { client_cas = some pool }

  authenticate_lem :
      (c : TlsConfig Pool Pair) (t : Config Pool Pair) (pem : Bytes)
      → c.server_tls ≡ some t
      → c.ca_pem ≡ some pem
      → c.client_auth_ca_pem ≡ none
      → c.client_auth_key_pem ≡ none
      → authenticate os c ≡ (
        record c {
          server_tls = some (admitted c.client_auth (os.append_certs pem os.new_cert_pool) t);
        },
        ok tt,
      )
  unfolding authenticate admit client_pool client_identity current modify done ◌>>=◌
  authenticate_lem c t pem s h k l = by_auth (c.client_auth == 0) refl
    where
      by_auth :
          (b : Bool)
          → (c.client_auth == 0) ≡ b
          → authenticate os c ≡ (
            record c {
              server_tls = some (admitted c.client_auth (os.append_certs pem os.new_cert_pool) t);
            },
            ok tt,
          )
      by_auth true e =
          rw e (ap (λ (o : Option (Config Pool Pair)). (record c { server_tls = o }, ok tt)) s)
      by_auth false e = rw (e, s, h, k, l) refl

  -- The last steps of `SetupTLS`, from the certificates on.
  abbrev rest : Step os (Unit {0})
  rest = do
    modify (λ c. trust os c.ca_pem c)
    c ← current
    identify os c.key_pem c.cert_pem
    authenticate os
    modify (named os)

  -- The pool in which the CA that has been made stands beside the system's certificates.
  abbrev pub roots : TlsConfig Pool Pair → Pool
  roots c = with_ca c (root_pool os os.system_cert_pool)

  -- The server's configuration that comes out: it has the server's certificate, and trusts the CA,
  -- for its clients too where they have to authenticate.
  abbrev pub server_of : TlsConfig Pool Pair → Config Pool Pair → Config Pool Pair
  server_of c t =
      admitted c.client_auth (with_ca c os.new_cert_pool)
        (record t { root_cas = some (roots c); certificates = server_pair c ∷ [] })

  -- The client's: it trusts the CA, and has the server's certificate too.
  abbrev pub client_of : TlsConfig Pool Pair → Config Pool Pair → Config Pool Pair
  client_of c t = record t {
    root_cas = some (roots c);
    certificates = server_pair c ∷ [];
    server_name = c.client_auth_server_name;
    insecure_skip_verify = c.insecure_skip_verify;
  }

  abbrev pub set_up_from :
      TlsConfig Pool Pair → Config Pool Pair → Config Pool Pair → TlsConfig Pool Pair
  set_up_from c server client = record (certified os w c) {
    server_tls = some (server_of c server);
    client_tls = some (client_of c client);
  }

  -- A configuration whose two parts are those.
  abbrev split : TlsConfig Pool Pair → Config Pool Pair → Config Pool Pair → TlsConfig Pool Pair
  split c server client = record c { server_tls = some server; client_tls = some client }

  rest_lem :
      (c : TlsConfig Pool Pair) (server client : Config Pool Pair)
      → rest (certified os w (split c server client)) ≡ (set_up_from c server client, ok tt)
  unfolding identify lift current modify ◌>>=◌ server_template ca_template
  rest_lem c server client =
      rw w.pairs (ap (bound (λ _. modify (named os))) (authenticate_lem _ _ _ refl refl refl refl))

  assemble_lem :
      (c : TlsConfig Pool Pair) (server client : Config Pool Pair)
      → c.auto_tls ≡ true
      → assemble os (forget_pems os (split c server client)) ≡ (set_up_from c server client, ok tt)
  unfolding assemble generate_if current ◌>>=◌
  assemble_lem c server client a =
      ap
        (λ b.
          bound (λ _. rest)
            ((if b then generate os else done) (forget_pems os (split c server client))))
        a
      ∙ (ap (bound (λ _. rest)) (generate_lem os w (split c server client))
          ∙ rest_lem c server client)

  -- With AutoTLS and no files, and with libraries and a host that work, `SetupTLS` succeeds, unless
  -- both configurations are given. It makes a CA that is signed by its own key and a certificate for
  -- the server that is signed by the CA's key; both configurations, filled from their defaults,
  -- have that certificate and trust that CA, and the server takes its clients' certificates of
  -- that CA, if they have to authenticate.
  pub setup_tls_auto :
      (c : TlsConfig Pool Pair)
      → HasNoFiles c
      → c.auto_tls ≡ true
      → (is_set c.server_tls && is_set c.client_tls) ≡ false
      → setup_tls os c ≡ (
        set_up_from c
            (os.default_config c.server_tls (server_defaults os c))
            (os.default_config c.client_tls empty_config),
        ok tt,
      )
  unfolding setup_tls configure with_defaults current modify done ◌>>=◌
  setup_tls_auto c f a h = rw h (
      ap (bound (λ _. assemble os)) (
        load_files_lem os w (with_defaults os c) record {
          ca = f.ca;
          ca_key = f.ca_key;
          key = f.key;
          cert = f.cert;
          client_auth_ca = f.client_auth_ca;
          client_auth_key = f.client_auth_key;
          client_auth_cert = f.client_auth_cert;
        })
      ∙ assemble_lem c _ _ a)

-- ===== src/Tls/Complete.antt =====
-- What `SetupTLS` of tls.go leaves when it succeeds.
use duh_go.Prelude.{true, false, [], ◌∷◌, Option, none, some, ◌≡◌, refl, ◌&&◌}
use duh_go.Prelude.{◌==◌}
use mathlib.Core.Path.{subst, sym}
use duh_go.Errors.{Go}
use duh_go.Frames.{Bytes, Result, ok, err}
use duh_go.Tls.{
  load, load_files, generate, generate_if, trust, root_pool, identify, identified, client_pool,
  client_identity, admit, authenticate, named, assemble, configure, setup_tls, with_defaults,
}
use duh_go.Tls.Settings.{Platform, TlsConfig, is_set, current, done, modify, ◌>>=◌}
use duh_go.Tls.Authority.{HasCa, HasCert, self_ca-HasCa, self_cert-HasCert}
use duh_go.Tls.Ensures.{
  Gives, Leads, Leads-bind, Leads-lift, Leads-if, Leads-done, Leads-current, Leads-modify,
  Leads-within, Leads-weaken, On, change-On,
}

module _ {Pool Pair Parsed Key : Type 0} (os : Platform Pool Pair Parsed Key) ⦃go : Go⦄ where
  -- Both configurations are there.
  abbrev pub Based : TlsConfig Pool Pair → Type 0
  Based c = On c.server_tls (λ _. Unit {0}) × On c.client_tls (λ _. Unit {0})

  abbrev Automatic : TlsConfig Pool Pair → Type 0
  Automatic c = (c.auto_tls ≡ true) × Based c

  -- The pool to which a CA has been added.
  abbrev pub roots : Bytes → Pool
  roots pem = os.append_certs pem (root_pool os os.system_cert_pool)

  -- Both trust the CA.
  abbrev Trusts : Bytes → TlsConfig Pool Pair → Type 0
  Trusts pem c =
      (c.ca_pem ≡ some pem)
      × On c.server_tls (λ t. t.root_cas ≡ some (roots pem))
      × On c.client_tls (λ t. t.root_cas ≡ some (roots pem))

  -- The server trusts the CA and has a certificate; the client trusts the same CA and has one too.
  abbrev pub IsReady : TlsConfig Pool Pair → Type 0
  IsReady c =
      (pem : Bytes) × (pair : Pair) × (c.ca_pem ≡ some pem)
      × On c.server_tls (λ t. (t.root_cas ≡ some (roots pem)) × (t.certificates ≡ pair ∷ []))
      × On c.client_tls
          (λ t. (t.root_cas ≡ some (roots pem)) × ((one : Pair) × (t.certificates ≡ one ∷ [])))

  pub Leads-load :
      {P Q : TlsConfig Pool Pair → Type 0}
      (set : Option Bytes → TlsConfig Pool Pair → TlsConfig Pool Pair) (r : Result (Option Bytes))
      → ((c : TlsConfig Pool Pair) (pem : Option Bytes) → P c → Q (set pem c))
      → Leads P (λ _. Q) (load os set r)
  unfolding load
  Leads-load set (ok pem) k = record { at = λ c p. k c pem p }
  Leads-load set (err e) k = record { at = λ c p. tt }

  -- A property that does not look at the PEM buffers.
  abbrev pub FreeOfPems : (TlsConfig Pool Pair → Type 0) → Type 0
  FreeOfPems P =
      (c : TlsConfig Pool Pair) (ca ca_key key cert client_ca client_key client_cert : Option Bytes)
      → P c
      → P (record c {
        ca_pem = ca;
        ca_key_pem = ca_key;
        key_pem = key;
        cert_pem = cert;
        client_auth_ca_pem = client_ca;
        client_auth_key_pem = client_key;
        client_auth_cert_pem = client_cert;
      })

  pub load_files_keeps :
      {P : TlsConfig Pool Pair → Type 0} → FreeOfPems P → Leads P (λ _. P) (load_files os)
  unfolding load_files
  load_files_keeps {P} free = Leads-bind _ _ Leads-current λ c.
      Leads-bind {Q = λ _. P} _ _ (Leads-load _ _ (λ c pem (e, p). free c pem _ _ _ _ _ _ p)) λ _.
        Leads-bind {Q = λ _. P} _ _ (Leads-load _ _ (λ c pem p. free c _ pem _ _ _ _ _ p)) λ _.
          Leads-bind {Q = λ _. P} _ _ (Leads-load _ _ (λ c pem p. free c _ _ pem _ _ _ _ p)) λ _.
            Leads-bind {Q = λ _. P} _ _ (Leads-load _ _ (λ c pem p. free c _ _ _ pem _ _ _ p)) λ _.
              Leads-bind {Q = λ _. P} _ _ (Leads-load _ _ (λ c pem p. free c _ _ _ _ pem _ _ p))
                λ _.
                  Leads-bind {Q = λ _. P} _ _ (Leads-load _ _ (λ c pem p. free c _ _ _ _ _ pem _ p))
                    λ _. Leads-load _ _ (λ c pem p. free c _ _ _ _ _ _ pem p)

  generate-HasCert : Leads Automatic (λ _ c. HasCert os c × (HasCa os c × Based c)) (generate os)
  unfolding generate
  generate-HasCert = Leads-bind {Q = λ _. Based} _ _ (Leads-modify _ (λ c p. p.1)) λ _.
      Leads-bind _ _ (Leads-within _ _ (self_ca-HasCa os (λ c ca ca_key p. p))) λ _.
        Leads-within _ _ (self_cert-HasCert os {P = λ c. HasCa os c × Based c} (λ c cert key p. p))

  trust-Trusts :
      (c : TlsConfig Pool Pair) (o : Option Bytes)
      → c.ca_pem ≡ o
      → is_set o ≡ true
      → HasCert os c
      → Based c
      → HasCert os (trust os o c) × ((pem : Bytes) × Trusts pem (trust os o c))
  trust-Trusts c none e h k b = let no : ⊥ = cc in absurd no
  trust-Trusts c (some pem) e h k (s, t) = (
    k,
    (
      pem,
      (
        e,
        change-On (λ _. Unit {0}) _ _ c.server_tls s (λ t p. refl),
        change-On (λ _. Unit {0}) _ _ c.client_tls t (λ t p. refl),
      ),
    ),
  )

  identified-IsReady :
      (pem : Bytes) (pair : Pair) (c : TlsConfig Pool Pair)
      → Trusts pem c
      → IsReady (identified os pair c)
  identified-IsReady pem pair c (e, s, t) = (
    pem,
    pair,
    e,
    change-On (λ t. t.root_cas ≡ some (roots pem)) _ _ c.server_tls s (λ t p. (p, refl)),
    change-On (λ t. t.root_cas ≡ some (roots pem)) _ _ c.client_tls t (λ t p. (p, (pair, refl))),
  )

  identify-IsReady :
      (key cert : Option Bytes)
      → is_set key ≡ true
      → is_set cert ≡ true
      → Leads (λ c. (pem : Bytes) × Trusts pem c) (λ _. IsReady) (identify os key cert)
  unfolding identify
  identify-IsReady none cert h k = let no : ⊥ = cc in absurd no
  identify-IsReady (some key) none h k = let no : ⊥ = cc in absurd no
  identify-IsReady (some key) (some cert) h k =
      Leads-bind _ _ (Leads-lift _ _)
        λ pair. Leads-modify _ (λ c (pem, t). identified-IsReady pem pair c t)

  client_pool_keeps :
      {P : TlsConfig Pool Pair → Type 0} (o : Option Bytes) → Leads P (λ _. P) (client_pool os o)
  unfolding client_pool
  client_pool_keeps none = record { at = λ c p. tt }
  client_pool_keeps (some pem) = record { at = λ c p. p }

  client_identity-IsReady :
      (key cert : Option Bytes) → Leads IsReady (λ _. IsReady) (client_identity os key cert)
  unfolding client_identity
  client_identity-IsReady none cert = Leads-done
  client_identity-IsReady (some key) none = Leads-done
  client_identity-IsReady (some key) (some cert) = Leads-bind _ _ (Leads-lift _ _) λ pair.
      Leads-modify _ (λ c (pem, own, e, s, t). (
        pem,
        own,
        e,
        s,
        change-On
            (λ t. (t.root_cas ≡ some (roots pem)) × ((one : Pair) × (t.certificates ≡ one ∷ []))) _
            _ c.client_tls t (λ t p. (p.0, (pair, refl))),
      ))

  authenticate-IsReady : Leads IsReady (λ _. IsReady) (authenticate os)
  unfolding authenticate admit
  authenticate-IsReady = Leads-bind _ _ Leads-current λ c.
      Leads-if (c.client_auth == 0) _ _ (λ _. Leads-weaken IsReady _ done (λ d p. p.1) Leads-done)
        (λ _. Leads-bind _ _ (client_pool_keeps _) λ pool.
          Leads-bind {Q = λ _. IsReady} _ _
            (Leads-modify _ (λ d (e, (pem, own, h, s, t)). (
              pem,
              own,
              h,
              change-On (λ t. (t.root_cas ≡ some (roots pem)) × (t.certificates ≡ own ∷ [])) _ _
                  d.server_tls s (λ t p. p),
              t,
            )))
            λ _. client_identity-IsReady _ _)

  named-IsReady : (c : TlsConfig Pool Pair) → IsReady c → IsReady (named os c)
  named-IsReady c (pem, own, h, s, t) = (
    pem,
    own,
    h,
    s,
    change-On (λ t. (t.root_cas ≡ some (roots pem)) × ((one : Pair) × (t.certificates ≡ one ∷ [])))
        _ _ c.client_tls t (λ t p. p),
  )

  assemble-IsReady : Leads Automatic (λ _. IsReady) (assemble os)
  unfolding assemble generate_if
  assemble-IsReady = Leads-bind _ _ Leads-current λ c.
      Leads-bind {Q = λ _ d. HasCert os d × (HasCa os d × Based d)} _ _
        (Leads-if c.auto_tls _ _ (λ _. Leads-weaken Automatic _ _ (λ d (e, p). p) generate-HasCert)
          (λ h. record { at = λ d (e, (a, b)). let no : ⊥ = cc in absurd no }))
        λ _.
          Leads-bind {Q = λ _ d. HasCert os d × ((pem : Bytes) × Trusts pem d)} _ _
            (Leads-modify _ (λ d (h, (ca, b)). trust-Trusts d d.ca_pem refl ca.0 h b))
            λ _. Leads-bind _ _ Leads-current λ d.
              Leads-bind {Q = λ _. IsReady} _ _
                (record {
                  at = λ x (e, (h, t)).
                      let k = subst (HasCert os) (sym e) h in
                      (identify-IsReady d.key_pem d.cert_pem k.1 k.0).at x t;
                })
                λ _. Leads-bind _ _ authenticate-IsReady λ _. Leads-modify _ named-IsReady

  -- When `SetupTLS` with AutoTLS succeeds, and not both ServerTLS and ClientTLS were given, the server
  -- has a certificate and the client has one too, and both trust the CA that the configuration now
  -- has, beside the system's certificates.
  pub setup_tls-IsReady :
      (c : TlsConfig Pool Pair)
      → c.auto_tls ≡ true
      → (is_set c.server_tls && is_set c.client_tls) ≡ false
      → Gives (λ _. IsReady) (setup_tls os c)
  unfolding setup_tls configure with_defaults ◌>>=◌ current modify done
  setup_tls-IsReady c a h = rw h (
      (Leads-bind _ _ (load_files_keeps (λ c a b d e f g h p. p)) (λ _. assemble-IsReady)).at
        (with_defaults os c) (a, (tt, tt)))

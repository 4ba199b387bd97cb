-- ===== src/Tls/ClientAuth.antt =====
-- Client authentication in `SetupTLS` of tls.go.
use duh_go.Prelude.{false, Option, none, some, ◌≡◌, refl, ◌&&◌}
use duh_go.Prelude.{◌==◌}
use mathlib.Core.Path.{subst, sym, ap}
use duh_go.Errors.{Go}
use duh_go.Frames.{Bytes}
use duh_go.Tls.{
  generate, generate_if, trust, identify, client_ca, client_pool, client_identity, admit,
  authenticate, assemble, configure, setup_tls, with_defaults,
}
use duh_go.Tls.Settings.{Platform, TlsConfig, is_set, current, done, modify, ◌>>=◌}
use duh_go.Tls.Authority.{self_ca-HasCa, self_cert-HasCert}
use duh_go.Tls.Complete.{Based, load_files_keeps}
use duh_go.Tls.Ensures.{
  Gives, Leads, Leads-bind, Leads-lift, Leads-if, Leads-done, Leads-current, Leads-modify,
  Leads-within, Leads-weaken, Leads-imp, On, change-On,
}

module _ {Pool Pair Parsed Key : Type 0} (os : Platform Pool Pair Parsed Key) ⦃go : Go⦄ where
  -- Clients are to be authenticated, and both configurations are there.
  abbrev Asked : TlsConfig Pool Pair → Type 0
  Asked c = ((c.client_auth == 0) ≡ false) × Based os c

  -- The server accepts the clients' own CA, or else the server's, and no other.
  abbrev pub IsGuarded : TlsConfig Pool Pair → Type 0
  IsGuarded c =
      (pem : Bytes) × (client_ca os c.client_auth_ca_pem c.ca_pem ≡ some pem)
      × On c.server_tls (λ t. t.client_cas ≡ some (os.append_certs pem os.new_cert_pool))

  generate-Asked : Leads Asked (λ _. Asked) (generate os)
  unfolding generate
  generate-Asked = Leads-bind {Q = λ _. Asked} _ _ (Leads-modify _ (λ c p. p)) λ _.
      Leads-bind {Q = λ _. Asked} _ _
        (Leads-within _ _
          (Leads-imp _ _ (self_ca-HasCa os {P = Asked} (λ c ca ca_key p. p)) (λ _ c p. p.1)))
        λ _.
          Leads-within _ _
            (Leads-imp _ _ (self_cert-HasCert os {P = Asked} (λ c cert key p. p)) (λ _ c p. p.1))

  trust-Asked : (o : Option Bytes) (c : TlsConfig Pool Pair) → Asked c → Asked (trust os o c)
  trust-Asked none c p = p
  trust-Asked (some pem) c (a, (s, t)) = (
    a,
    (
      change-On (λ _. Unit {0}) _ _ c.server_tls s (λ t p. p),
      change-On (λ _. Unit {0}) _ _ c.client_tls t (λ t p. p),
    ),
  )

  identify-Asked : (key cert : Option Bytes) → Leads Asked (λ _. Asked) (identify os key cert)
  unfolding identify
  identify-Asked none cert = Leads-done
  identify-Asked (some key) none = Leads-done
  identify-Asked (some key) (some cert) = Leads-bind _ _ (Leads-lift _ _) λ pair.
      Leads-modify _ (λ c (a, (s, t)). (
        a,
        (
          change-On (λ _. Unit {0}) _ _ c.server_tls s (λ t p. p),
          change-On (λ _. Unit {0}) _ _ c.client_tls t (λ t p. p),
        ),
      ))

  client_pool_lem :
      (c : TlsConfig Pool Pair) (o : Option Bytes)
      → client_ca os c.client_auth_ca_pem c.ca_pem ≡ o
      → Leads
          (λ d. (c ≡ d) × Asked d)
          (λ pool d.
            (pem : Bytes) × (client_ca os d.client_auth_ca_pem d.ca_pem ≡ some pem)
            × (pool ≡ os.append_certs pem os.new_cert_pool)
            × Asked d)
          (client_pool os o)
  unfolding client_pool
  client_pool_lem c none h = record { at = λ d p. tt }
  client_pool_lem c (some pem) h = record {
    at = λ d (e, a).
        (pem, subst (λ d. client_ca os d.client_auth_ca_pem d.ca_pem ≡ some pem) e h, refl, a);
  }

  client_identity-IsGuarded :
      (key cert : Option Bytes) → Leads IsGuarded (λ _. IsGuarded) (client_identity os key cert)
  unfolding client_identity
  client_identity-IsGuarded none cert = Leads-done
  client_identity-IsGuarded (some key) none = Leads-done
  client_identity-IsGuarded (some key) (some cert) =
      Leads-bind _ _ (Leads-lift _ _) λ pair. Leads-modify _ (λ c p. p)

  authenticate-IsGuarded : Leads Asked (λ _. IsGuarded) (authenticate os)
  unfolding authenticate admit
  authenticate-IsGuarded = Leads-bind _ _ Leads-current λ c.
      Leads-if (c.client_auth == 0) _ _
        (λ h. record {
          at = λ d (e, (a, b)).
              let k : (c.client_auth == 0) ≡ false =
                subst (λ d. (d.client_auth == 0) ≡ false) (sym e) a in
              let no : ⊥ = cc in absurd no;
        })
        (λ _. Leads-bind _ _ (client_pool_lem c _ refl) λ pool.
          Leads-bind {Q = λ _. IsGuarded} _ _
            (Leads-modify _ (λ d (pem, h, e, (a, (s, t))).
              (pem, h, change-On (λ _. Unit {0}) _ _ d.server_tls s (λ t p. ap some e))))
            λ _. client_identity-IsGuarded _ _)

  assemble-IsGuarded : Leads Asked (λ _. IsGuarded) (assemble os)
  unfolding assemble generate_if
  assemble-IsGuarded = Leads-bind _ _ Leads-current λ c.
      Leads-bind {Q = λ _. Asked} _ _
        (Leads-weaken Asked _ _ (λ d p. p.1)
          (Leads-if c.auto_tls _ _ (λ _. generate-Asked) (λ _. Leads-done)))
        λ _. Leads-bind {Q = λ _. Asked} _ _ (Leads-modify _ (λ d p. trust-Asked d.ca_pem d p)) λ _.
          Leads-bind _ _ Leads-current λ d.
            Leads-bind {Q = λ _. Asked} _ _
              (Leads-weaken Asked _ _ (λ d p. p.1) (identify-Asked d.key_pem d.cert_pem))
              λ _. Leads-bind _ _ authenticate-IsGuarded λ _. Leads-modify _ (λ c p. p)

  -- If client authentication is asked for and `SetupTLS` succeeds, the server has a pool for the
  -- certificates of its clients, of their CA, or of its own where they have none: it is never left
  -- to accept them by another. This is not so where both ServerTLS and ClientTLS are given, which
  -- `SetupTLS` leaves as they are.
  pub setup_tls-IsGuarded :
      (c : TlsConfig Pool Pair)
      → (c.client_auth == 0) ≡ false
      → (is_set c.server_tls && is_set c.client_tls) ≡ false
      → Gives (λ _. IsGuarded) (setup_tls os c)
  unfolding setup_tls configure with_defaults ◌>>=◌ current modify done
  setup_tls-IsGuarded c a h = rw h (
      (Leads-bind _ _ (load_files_keeps os (λ c a b d e f g h p. p)) (λ _. assemble-IsGuarded)).at
        (with_defaults os c) (a, (tt, tt)))

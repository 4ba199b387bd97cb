-- ===== src/Tls/Forgets.antt =====
-- What `SetupTLS` of tls.go does with the PEM buffers that it is given.
use duh_go.Prelude.{false, Option, none, ◌≡◌, refl, ap, ◌⊎◌, inl, inr, ◌&&◌}
use duh_go.Errors.{GoError, Go}
use duh_go.Frames.{Bytes, Result, ok, err}
use duh_go.Tls.{setup_tls, configure, load_files, assemble, with_defaults, load, from_file}
use duh_go.Tls.Settings.{Platform, TlsConfig, is_set, bound, current, modify, done, ◌>>=◌, ◌>>◌}
use duh_go.Tls.SelfSigned.{Step}

module _ {Pool Pair Parsed Key : Type 0} (os : Platform Pool Pair Parsed Key) ⦃go : Go⦄ where
  -- A configuration without its PEM buffers.
  abbrev pub forget_pems : TlsConfig Pool Pair → TlsConfig Pool Pair
  forget_pems c = record c {
    ca_pem = none;
    ca_key_pem = none;
    key_pem = none;
    cert_pem = none;
    client_auth_ca_pem = none;
    client_auth_key_pem = none;
    client_auth_cert_pem = none;
  }

  -- The same outcome: the same configuration, or the same error.
  abbrev pub SameOutcome :
      TlsConfig Pool Pair × Result (Unit {0}) → TlsConfig Pool Pair × Result (Unit {0}) → Type 0
  SameOutcome p q = (p ≡ q) ⊎ ((e : GoError) × (p.1 ≡ err e) × (q.1 ≡ err e))

  -- `load_files` by what the seven files give.
  abbrev loads :
      (ca ca_key key cert client_ca client_key client_cert : Result (Option Bytes))
      → Step os (Unit {0})
  loads ca ca_key key cert client_ca client_key client_cert = do
    load os (λ pem c. record c { ca_pem = pem }) ca
    load os (λ pem c. record c { ca_key_pem = pem }) ca_key
    load os (λ pem c. record c { key_pem = pem }) key
    load os (λ pem c. record c { cert_pem = pem }) cert
    load os (λ pem c. record c { client_auth_ca_pem = pem }) client_ca
    load os (λ pem c. record c { client_auth_key_pem = pem }) client_key
    load os (λ pem c. record c { client_auth_cert_pem = pem }) client_cert

  loads-SameOutcome :
      (ca ca_key key cert client_ca client_key client_cert : Result (Option Bytes))
      (c : TlsConfig Pool Pair)
      → SameOutcome
          (loads ca ca_key key cert client_ca client_key client_cert (forget_pems c))
          (loads ca ca_key key cert client_ca client_key client_cert c)
  unfolding ◌>>=◌ load
  loads-SameOutcome (err e) _ _ _ _ _ _ c = inr (e, refl, refl)
  loads-SameOutcome (ok _) (err e) _ _ _ _ _ c = inr (e, refl, refl)
  loads-SameOutcome (ok _) (ok _) (err e) _ _ _ _ c = inr (e, refl, refl)
  loads-SameOutcome (ok _) (ok _) (ok _) (err e) _ _ _ c = inr (e, refl, refl)
  loads-SameOutcome (ok _) (ok _) (ok _) (ok _) (err e) _ _ c = inr (e, refl, refl)
  loads-SameOutcome (ok _) (ok _) (ok _) (ok _) (ok _) (err e) _ c = inr (e, refl, refl)
  loads-SameOutcome (ok _) (ok _) (ok _) (ok _) (ok _) (ok _) (err e) c = inr (e, refl, refl)
  loads-SameOutcome (ok _) (ok _) (ok _) (ok _) (ok _) (ok _) (ok _) c = inl refl

  bound-SameOutcome :
      (f : Step os (Unit {0})) (p q : TlsConfig Pool Pair × Result (Unit {0}))
      → SameOutcome p q
      → SameOutcome (bound (λ _. f) p) (bound (λ _. f) q)
  bound-SameOutcome f p q (inl h) = inl (ap (bound (λ _. f)) h)
  bound-SameOutcome f (c, ok u) q (inr (e, h, k)) = let no : ⊥ = cc in absurd no
  bound-SameOutcome f (c, err d) (c', ok u) (inr (e, h, k)) = let no : ⊥ = cc in absurd no
  bound-SameOutcome f (c, err d) (c', err d') (inr (e, h, k)) = inr (e, h, k)

  -- Whatever PEM buffers a configuration comes with, `SetupTLS` sets it up as it would without any of
  -- them, or fails with the same error: it takes the files alone. That is but where both the server's
  -- and the client's configuration are there already.
  pub setup_tls-forget_pems :
      (c : TlsConfig Pool Pair)
      → (is_set c.server_tls && is_set c.client_tls) ≡ false
      → SameOutcome (setup_tls os (forget_pems c)) (setup_tls os c)
  unfolding setup_tls configure load_files with_defaults ◌>>=◌ current modify done
  setup_tls-forget_pems c h = rw h (
      bound-SameOutcome (assemble os) _ _ (
        loads-SameOutcome (from_file os c.ca_file) (from_file os c.ca_key_file)
          (from_file os c.key_file) (from_file os c.cert_file) (from_file os c.client_auth_ca_file)
          (from_file os c.client_auth_key_file) (from_file os c.client_auth_cert_file)
          (with_defaults os c)))

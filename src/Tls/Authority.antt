-- ===== src/Tls/Authority.antt =====
-- `selfCA` and `selfCert` of tls.go leave what they are called for.
use duh_go.Prelude.{Bool, true, Option, some, Text, ◌≡◌, refl, ◌&&◌}
use duh_go.Prelude.{if_intro, arith}
use mathlib.Core.Path.{subst}
use mathlib.Core.Bool.{not}
use duh_go.Prelude.{List, [], ◌∷◌}
use duh_go.Tls.Network.{NetInfo}
use duh_go.Errors.{GoError, Go, is_nil}
use duh_go.Frames.{Bytes}
use duh_go.Tls.Settings.{Platform, TlsConfig, is_set, done}
use duh_go.Tls.SelfSigned.{
  self_ca, self_cert, make_ca, make_cert, encoded, sign_cert, signing_ca, leaf,
}
use duh_go.Tls.Ensures.{
  Gives, Leads, Leads-bind, Leads-lift, Leads-if, Leads-done, Leads-current, Leads-fail,
  Leads-weaken,
}

module _ {Pool Pair Parsed Key : Type 0} (os : Platform Pool Pair Parsed Key) ⦃go : Go⦄ where
  -- Both halves of the CA are there.
  abbrev pub HasCa : TlsConfig Pool Pair → Type 0
  HasCa c = (is_set c.ca_pem ≡ true) × (is_set c.ca_key_pem ≡ true)

  -- Both halves of the server's certificate are there.
  abbrev pub HasCert : TlsConfig Pool Pair → Type 0
  HasCert c = (is_set c.cert_pem ≡ true) × (is_set c.key_pem ≡ true)

  encoded_lem :
      (Q : TlsConfig Pool Pair → Type 0) (set : Bytes → TlsConfig Pool Pair → TlsConfig Pool Pair)
      (prefix : Text) (w : Bytes × GoError) (c : TlsConfig Pool Pair)
      → Q (set w.0 c)
      → Gives (λ _. Q) (encoded os set prefix w c)
  unfolding encoded
  encoded_lem Q set prefix (b, e) c q = if_intro (Gives (λ _. Q)) (is_nil e) (λ _. q) (λ _. tt)

  -- A buffer that has been encoded is there.
  Leads-encoded :
      {P Q : TlsConfig Pool Pair → Type 0} (set : Bytes → TlsConfig Pool Pair → TlsConfig Pool Pair)
      (prefix : Text) (w : Bytes × GoError)
      → ((b : Bytes) (c : TlsConfig Pool Pair) → P c → Q (set b c))
      → Leads P (λ _. Q) (encoded os set prefix w)
  Leads-encoded {Q = Q} set prefix w k = record {
    at = λ c p. encoded_lem Q set prefix w c (k w.0 c p);
  }

  and_split : (a b : Bool) → (a && b) ≡ true → (a ≡ true) × (b ≡ true)
  and_split a b h = ground arith

  leaf_keeps : {P : TlsConfig Pool Pair → Type 0} (bs : List Bytes) → Leads P (λ _. P) (leaf os bs)
  unfolding leaf
  leaf_keeps [] = record { at = λ c p. tt }
  leaf_keeps (b ∷ bs) = record { at = λ c p. p }

  signing_ca_keeps :
      {P : TlsConfig Pool Pair → Type 0} (c : TlsConfig Pool Pair)
      → Leads P (λ _. P) (signing_ca os c)
  unfolding signing_ca
  signing_ca_keeps c =
      Leads-if (not (is_set c.ca_pem) && not (is_set c.ca_key_pem)) _ _ (λ _. Leads-fail _)
        (λ _. Leads-done)

  sign_cert_keeps :
      {P : TlsConfig Pool Pair → Type 0} (c : TlsConfig Pool Pair) (network : NetInfo) (key : Key)
      → Leads P (λ _. P) (sign_cert os c network key)
  unfolding sign_cert
  sign_cert_keeps c network key = Leads-bind _ _ (signing_ca_keeps c) λ _.
      Leads-bind _ _ (Leads-lift _ _) λ pair.
        Leads-bind _ _ (leaf_keeps _)
          λ first. Leads-bind _ _ (Leads-lift _ _) λ parent. Leads-lift _ _

  -- A property that does not look at the buffers of the CA, and one that does not look at the
  -- server's.
  abbrev pub FreeOfCa : (TlsConfig Pool Pair → Type 0) → Type 0
  FreeOfCa P =
      (c : TlsConfig Pool Pair) (ca ca_key : Option Bytes)
      → P c
      → P (record c { ca_pem = ca; ca_key_pem = ca_key })

  abbrev pub FreeOfCert : (TlsConfig Pool Pair → Type 0) → Type 0
  FreeOfCert P =
      (c : TlsConfig Pool Pair) (cert key : Option Bytes)
      → P c
      → P (record c { cert_pem = cert; key_pem = key })

  module _ {P : TlsConfig Pool Pair → Type 0} (frames : FreeOfCa P) where
    make_ca-HasCa : (c : TlsConfig Pool Pair) → Leads P (λ _ d. HasCa d × P d) (make_ca os c)
    unfolding make_ca
    make_ca-HasCa c = Leads-bind _ _ (Leads-lift _ _) λ key.
        Leads-bind _ _ (Leads-lift _ _) λ signed.
          Leads-bind {Q = λ _ d. (is_set d.ca_pem ≡ true) × P d} _ _
            (Leads-encoded _ _ _ (λ b d p. (refl, frames d (some b) d.ca_key_pem p)))
            λ _. Leads-bind _ _ (Leads-lift _ _) λ key_bytes.
              Leads-encoded _ _ _ (λ b d (ca, p). ((ca, refl), frames d d.ca_pem (some b) p))

    -- When `selfCA` succeeds, the CA's certificate and its key are both there.
    pub self_ca-HasCa : Leads P (λ _ c. HasCa c × P c) (self_ca os)
    unfolding self_ca
    self_ca-HasCa = Leads-bind _ _ Leads-current λ c.
        Leads-if (is_set c.ca_pem && is_set c.ca_key_pem) _ _
          (λ h.
            Leads-weaken (λ d. HasCa d × P d) _ done
              (λ d (e, p). (subst HasCa e (and_split _ _ h), p)) Leads-done)
          (λ _. Leads-weaken P _ (make_ca os c) (λ d (e, p). p) (make_ca-HasCa c))

  module _ {P : TlsConfig Pool Pair → Type 0} (frames : FreeOfCert P) where
    make_cert-HasCert :
        (c : TlsConfig Pool Pair) → Leads P (λ _ d. HasCert d × P d) (make_cert os c)
    unfolding make_cert
    make_cert-HasCert c = Leads-bind _ _ (Leads-lift _ _) λ network.
        Leads-bind _ _ (Leads-lift _ _) λ key.
          Leads-bind {Q = λ _. P} _ _ (sign_cert_keeps c network key) λ signed.
            Leads-bind {Q = λ _ d. (is_set d.cert_pem ≡ true) × P d} _ _
              (Leads-encoded _ _ _ (λ b d p. (refl, frames d (some b) d.key_pem p)))
              λ _. Leads-bind _ _ (Leads-lift _ _) λ key_bytes.
                Leads-encoded _ _ _
                  (λ b d (cert, p). ((cert, refl), frames d d.cert_pem (some b) p))

    -- When `selfCert` succeeds, the server's certificate and its key are both there.
    pub self_cert-HasCert : Leads P (λ _ c. HasCert c × P c) (self_cert os)
    unfolding self_cert
    self_cert-HasCert = Leads-bind _ _ Leads-current λ c.
        Leads-if (is_set c.cert_pem && is_set c.key_pem) _ _
          (λ h.
            Leads-weaken (λ d. HasCert d × P d) _ done
              (λ d (e, p). (subst HasCert e (and_split _ _ h), p)) Leads-done)
          (λ _. Leads-weaken P _ (make_cert os c) (λ d (e, p). p) (make_cert-HasCert c))

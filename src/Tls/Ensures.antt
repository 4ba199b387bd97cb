-- ===== src/Tls/Ensures.antt =====
-- What holds of the configuration when a step of tls.go has succeeded, with a rule for each way to
-- build a step.
use duh_go.Prelude.{Bool, true, false, Option, none, some, Text, ◌≡◌, refl, if◌then◌else◌}
use duh_go.Errors.{GoError, Go}
use duh_go.Frames.{Result, ok, err}
use duh_go.Tls.Settings.{
  Setup, bound, explain, change, lift, within, prefixed, done, fail, current, modify, ◌>>=◌,
}

-- The value that the step gives, if it gives one, and the configuration behind it.
abbrev pub Gives : {C A : Type 0} → (A → C → Type 0) → C × Result A → Type 0
Gives P (c, ok a) = P a c
Gives P (c, err e) = Unit

-- From `P`, if the step succeeds, it leads to `Q`.
pub record Leads {C A : Type 0} (P : C → Type 0) (Q : A → C → Type 0) (m : Setup C A) : Type 0 where
  pub at : (c : C) → P c → Gives Q (m c)

module _ {C A : Type 0} where
  bound-Gives :
      {B : Type 0} (Q : A → C → Type 0) (R : B → C → Type 0) (f : A → Setup C B) (p : C × Result A)
      → Gives Q p
      → ((a : A) → Leads (Q a) R (f a))
      → Gives R (bound f p)
  bound-Gives Q R f (c, ok a) q k = (k a).at c q
  bound-Gives Q R f (c, err e) q k = tt

  Gives_imp :
      (Q R : A → C → Type 0) (p : C × Result A)
      → Gives Q p
      → ((a : A) (c : C) → Q a c → R a c)
      → Gives R p
  Gives_imp Q R (c, ok a) q k = k a c q
  Gives_imp Q R (c, err e) q k = tt

  explain-Gives :
      ⦃go : Go⦄ (Q : A → C → Type 0) (prefix : Text) (r : C × Result A)
      → Gives Q r
      → Gives Q (prefixed prefix r)
  explain-Gives Q prefix (c, ok a) q = q
  explain-Gives Q prefix (c, err e) q = tt

  lift_lem :
      ⦃go : Go⦄ (P : C → Type 0) (prefix : Text) (r : Result A) (c : C)
      → P c
      → Gives (λ _. P) (c, explain prefix r)
  lift_lem P prefix (ok a) c p = p
  lift_lem P prefix (err e) c p = tt

module _ {C A : Type 0} {P : C → Type 0} where
  pub Leads-bind :
      {B : Type 0} {Q : A → C → Type 0} {R : B → C → Type 0} (m : Setup C A) (f : A → Setup C B)
      → Leads P Q m
      → ((a : A) → Leads (Q a) R (f a))
      → Leads P R (m >>= f)
  unfolding ◌>>=◌
  Leads-bind {Q = Q} {R = R} m f l k = record { at = λ c p. bound-Gives Q R f (m c) (l.at c p) k }

  pub Leads-within :
      ⦃go : Go⦄ {Q : A → C → Type 0} (prefix : Text) (m : Setup C A)
      → Leads P Q m
      → Leads P Q (within prefix m)
  unfolding within
  Leads-within {Q = Q} prefix m l = record { at = λ c p. explain-Gives Q prefix (m c) (l.at c p) }

  pub Leads-fail : {Q : A → C → Type 0} (e : GoError) → Leads P Q (fail e)
  unfolding fail
  Leads-fail e = record { at = λ c p. tt }

  pub Leads-lift : ⦃go : Go⦄ (prefix : Text) (r : Result A) → Leads P (λ _. P) (lift prefix r)
  unfolding lift
  Leads-lift prefix r = record { at = λ c p. lift_lem P prefix r c p }

  pub Leads-if :
      {Q : A → C → Type 0} (b : Bool) (m n : Setup C A)
      → (b ≡ true → Leads P Q m)
      → (b ≡ false → Leads P Q n)
      → Leads P Q (if b then m else n)
  Leads-if true m n l k = l refl
  Leads-if false m n l k = k refl

  pub Leads-weaken :
      (P' : C → Type 0) (Q : A → C → Type 0) (m : Setup C A)
      → ((c : C) → P c → P' c)
      → Leads P' Q m
      → Leads P Q m
  Leads-weaken P' Q m w l = record { at = λ c p. l.at c (w c p) }

  pub Leads-imp :
      (Q : A → C → Type 0) {R : A → C → Type 0} (m : Setup C A)
      → Leads P Q m
      → ((a : A) (c : C) → Q a c → R a c)
      → Leads P R m
  Leads-imp Q {R = R} m l k = record { at = λ c p. Gives_imp Q R (m c) (l.at c p) k }

module _ {C : Type 0} {P : C → Type 0} where
  pub Leads-done : Leads P (λ _. P) done
  unfolding done
  Leads-done = record { at = λ c p. p }

  pub Leads-current : Leads P (λ a c. (a ≡ c) × P c) current
  unfolding current
  Leads-current = record { at = λ c p. (refl, p) }

  pub Leads-modify :
      {Q : C → Type 0} (f : C → C) → ((c : C) → P c → Q (f c)) → Leads P (λ _. Q) (modify f)
  unfolding modify
  Leads-modify f k = record { at = k }

-- A property of the configuration that is there.
abbrev pub On : {A : Type 0} → Option A → (A → Type 0) → Type 0
On none P = ⊥
On (some t) P = P t

pub change-On :
    {A : Type 0} (P Q : A → Type 0) (f : A → A) (o : Option A)
    → On o P
    → ((t : A) → P t → Q (f t))
    → On (change f o) Q
change-On P Q f none p k = p
change-On P Q f (some t) p k = k t p

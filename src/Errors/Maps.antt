-- ===== src/Errors/Maps.antt =====
-- Lookups in a map of errors.go after an assignment.
use duh_go.Prelude.{List, Bool, true, false, [], ◌∷◌, none, some, Text, text_eq, text_eq_iff}
use duh_go.Prelude.{text_eq_refl, if◌then◌else◌, if_intro, ◌≡◌, sym, ap, ◌∙◌}
use duh_go.Errors.{Details, lookup, insert, index}

pub if_true {ℓ} : {A : Type ℓ} {x : A} (y : A) (b : Bool) → b ≡ true → (if b then x else y) ≡ x
if_true y b h = cc

pub if_false {ℓ} : {A : Type ℓ} (x : A) {y : A} (b : Bool) → b ≡ false → (if b then x else y) ≡ y
if_false x b h = cc

pub lookup-insert_same {ℓ} :
    {V : Type ℓ} (k : Text) (v : V) (m : List (Text × V)) → lookup k (insert k v m) ≡ some v
unfolding lookup insert
lookup-insert_same k v [] = if_true _ (text_eq k k) (text_eq_refl k)
lookup-insert_same k v ((j, w) ∷ m) =
    if_intro (λ m'. lookup k m' ≡ some v) (text_eq j k)
      (λ _. if_true _ (text_eq k k) (text_eq_refl k))
      (λ b. if_false _ (text_eq j k) b ∙ lookup-insert_same k v m)

pub lookup-insert_other {ℓ} :
    {V : Type ℓ} (j k : Text) (v : V) (m : List (Text × V))
    → text_eq j k ≡ false
    → lookup k (insert j v m) ≡ lookup k m
unfolding lookup insert
lookup-insert_other j k v [] h = if_false _ (text_eq j k) h
lookup-insert_other j k v ((i, w) ∷ m) h =
    if_intro (λ m'. lookup k m' ≡ lookup k ((i, w) ∷ m)) (text_eq i j)
      (λ b.
        if_false _ (text_eq j k) h
        ∙ sym (if_false _ (text_eq i k) (ap (λ t. text_eq t k) ((text_eq_iff i j).0 b) ∙ h)))
      (λ _. ap (λ o. if text_eq i k then some w else o) (lookup-insert_other j k v m h))

pub index-insert_same : (k v : Text) (m : Details) → index k (insert k v m) ≡ v
unfolding index
index-insert_same k v m = ap (λ o. elim o [ none ↦ [] | some v ↦ v ]) (lookup-insert_same k v m)

pub index-insert_other :
    (j k v : Text) (m : Details) → text_eq j k ≡ false → index k (insert j v m) ≡ index k m
unfolding index
index-insert_other j k v m h =
    ap (λ o. elim o [ none ↦ [] | some v ↦ v ]) (lookup-insert_other j k v m h)

-- ===== src/Retry/Paced.antt =====
-- From a service that says when to come back, by service.go and client.go, to the pause of
-- retry/retry.go.
use duh_go.Prelude.{true, false, [], ◌∷◌, none, some, Text, str}
use duh_go.Prelude.{◌≡◌, ℤ, is_zero}
use duh_go.Errors.{Details, lookup, Go}
use duh_go.Retry.{Floats, World, one_second}

-- A map has no key twice.
abbrev pub IsMap : Details → Type 0
IsMap [] = Unit
IsMap ((k, v) ∷ m) = (lookup k m ≡ none) × IsMap m

module _ {F W : Type 0} (floats : Floats F) (world : World F W) ⦃go : Go⦄ where
  -- The details ask for a pause.
  pub record AsksFor (d : ℤ) (details : Details) : Type 0 where
    pub text : Text
    pub number : F
    pub there : lookup (str "ratelimit-reset") details ≡ some text
    pub parses : floats.parse_float text ≡ some number
    pub positive : floats.above_zero number ≡ true
    pub duration : floats.to_duration (floats.mul number (floats.of_duration one_second)) ≡ d
    pub lasting : is_zero d ≡ false

-- ===== src/Demo/Store.antt =====
-- `Service` of demo/service.go. Its mutex makes each operation on the stored content one step.
use duh_go.Prelude.{
  ℕ, zero, suc, ◌+◌, Bool, List, [], ◌∷◌, ◌++◌, Option, none, some, Text, str, text_eq, itoa,
  if◌then◌else◌, ℤ, pos, negsuc,
}
use mathlib.Core.Bool.{not}
use duh_go.Errors.{lookup, insert, nil, Go, new_service_error, code_bad_request, code_not_found}
use duh_go.Frames.{Bytes, Result, ok, err}

-- `contentEntry`
pub record Entry : Type 0 where
  pub content_type : Text
  pub body : Bytes

-- `Service`, by its map.
abbrev pub Store : Type 0
Store = List (Text × Entry)

-- `NewService`
abbrev pub new_service : Store
new_service = []

-- `StoreContent`
abbrev pub store_content : Text → Text → Bytes → Store → Store
store_content path content_type body =
    insert path (record { content_type = content_type; body = body })

module _ ⦃go : Go⦄ where
  abbrev pub found_entry : Option Entry → Result Entry
  found_entry none = err (new_service_error code_not_found (str "content not found") nil [])
  found_entry (some entry) = ok entry

  -- `GetContent`
  unfoldable pub get_content : Text → Store → Result Entry
  get_content path s = found_entry (lookup path s)

  -- `SayHello`; `title` is what `cases.Title` makes of a name.
  unfoldable pub say_hello : (Text → Text) → Text → Result Text
  say_hello title name =
      if text_eq name []
      then err
          (new_service_error code_bad_request (str "'name' is required and cannot be empty") nil [])
      else if not (text_eq (title name) name)
      then err (new_service_error code_bad_request (str "'name' must be capitalized") nil [])
      else ok (str "Hello, " ++ name)

pub record Event : Type 0 where
  pub sequence : ℕ
  pub message : Text

-- The loop of `ListEvents` from `i`, with the rounds that are left.
unfoldable pub events_from : ℕ → ℕ → List Event
events_from i zero = []
events_from i (suc n) =
    record { sequence = i; message = str "event-" ++ itoa i } ∷ events_from (i + 1) n

-- `ListEvents`. A negative count is a fault: `make` panics on the negative capacity.
unfoldable pub list_events : ℤ → Option (List Event)
list_events (pos n) = some (events_from 0 n)
list_events (negsuc n) = none

-- What `RenderPixel` uses of float64, over any type that stands for it. `of_int` converts an int64,
-- and `to_int` back.
pub record FloatOps (F : Type 0) : Type 0 where
  pub of_int : ℤ → F
  pub to_int : F → ℤ
  pub add : F → F → F
  pub sub : F → F → F
  pub mul : F → F → F
  pub div : F → F → F
  pub lt : F → F → Bool

pub record PixelRequest (F : Type 0) : Type 0 where
  pub complexity : F
  pub height : ℤ
  pub width : ℤ
  pub i : ℤ
  pub j : ℤ

module _ {F : Type 0} (float : FloatOps F) where
  -- `norm`
  unfoldable pub norm : ℤ → ℤ → F → F → F
  norm x total min max =
      float.sub (float.div (float.mul (float.sub max min) (float.of_int x)) (float.of_int total))
        max

  -- The loop of `RenderPixel`, with the rounds that are left of `maxI`; it gives `x`.
  unfoldable pub iterate : F → F → F → ℕ → F → F → F
  iterate complexity xi yi zero x y = x
  iterate complexity xi yi (suc rounds) x y =
      let x' = float.add (float.sub (float.mul x x) (float.mul y y)) xi in
      let y' = float.add (float.mul (float.mul (float.of_int (pos 2)) x) y) yi in
      let more = iterate complexity xi yi rounds x' y' in
      if float.lt (float.add (float.mul x x) (float.mul y y)) complexity then more else x

  -- `RenderPixel`
  unfoldable pub render_pixel : PixelRequest F → ℤ
  render_pixel req = float.to_int (
      iterate req.complexity (norm req.i req.width (float.of_int (negsuc 0)) (float.of_int (pos 2)))
        (norm req.j req.height (float.of_int (negsuc 0)) (float.of_int (pos 1))) 1000
        (float.of_int (pos 0)) (float.of_int (pos 0)))

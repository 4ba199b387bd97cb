-- ===== src/Body/Limits.antt =====
-- What `LimitReader` of reader.go lets through to a copy.
use duh_go.Prelude.{
  ℕ, zero, suc, ◌+◌, ◌-◌, ◌≤◌, ◌<◌, ◌≡◌, refl, sym, ap, ◌∙◌, arith, false, [], ◌++◌, Option, some,
  if◌then◌else◌, if_intro, ltb, leb, length, take, drop, ℤ, pos,
}
use duh_go.Prelude.{◌==◌, ◌^◌, length-drop, length-take, length-append, take-append-drop}
use mathlib.Core.List.{append_assoc}
use mathlib.Core.Path.{subst}
use duh_go.Errors.{GoError, nil, sentinel, eof, is_nil}
use duh_go.Frames.{Bytes}
use duh_go.Body.{
  Body, ended, last, chunk, Read, read_body, LimitReader, limited, limit_read, copied, copy_loop,
  reads, copy_request, new_limit_reader, add_one,
}

-- All the bytes of a body, and the error behind them.
unfoldable pub content : Body → Bytes
content (ended e) = []
content (last b e) = b
content (chunk b rest) = b ++ content rest

unfoldable pub ending : Body → GoError
ending (ended e) = e
ending (last b e) = e
ending (chunk b rest) = ending rest

-- A copy that has met an error: EOF is none.
unfoldable pub outcome : Bytes → GoError → Bytes × GoError
outcome b (sentinel eof) = (b, nil)
outcome b e = (b, e)

copied-end :
    {R : Type 0} (read : ℕ → R → Read R) (free : ℕ → ℕ)
    (again : R → Bytes → Option (Bytes × GoError)) (buffer : Bytes) (r : R) (b : Bytes)
    (e : GoError)
    → is_nil e ≡ false
    → copied read free again buffer (record { reader = r; bytes = b; error = e })
      ≡ some (outcome (buffer ++ b) e)
unfolding copied outcome
copied-end read free again buffer r b nil h = let no : ⊥ = cc in absurd no
copied-end read free again buffer r b (sentinel eof) h = refl
copied-end read free again buffer r b (sentinel s) h = refl
copied-end read free again buffer r b e h = refl

pub limit_read_lem :
    (k m : ℕ) (max : ℤ) (r : Body)
    → suc zero ≤ m
    → limit_read k (record { r = r; remain = pos m; max = max })
      ≡ limited
          (record { r = r; remain = pos m; max = max })
          (read_body (if ltb m k then m else k) r)
unfolding limit_read
limit_read_lem k m max r h =
    let l : LimitReader = record { r = r; remain = pos m; max = max } in
    if_intro (λ (t : Read LimitReader). t ≡ limited l (read_body (if ltb m k then m else k) r))
      (ltb 0 m) (λ _. refl) (λ b. let no : ⊥ = ground arith in absurd no)

-- A body's bytes in two parts, behind those that a buffer has.
split_append :
    (k : ℕ) (buffer b rest : Bytes)
    → (buffer ++ take k b) ++ (drop k b ++ rest) ≡ buffer ++ (b ++ rest)
split_append k buffer b rest =
    append_assoc buffer (take k b) (drop k b ++ rest)
    ∙ ap (λ t. buffer ++ t)
        (sym (append_assoc (take k b) (drop k b) rest) ∙ ap (λ t. t ++ rest) (take-append-drop k b))

add_one_lem : (n : ℕ) → n + 1 < 2 ^ 63 → add_one (pos n) ≡ pos (n + 1)
unfolding add_one
add_one_lem n h =
    if_intro (λ t. t ≡ pos (n + 1)) (n + 1 == 2 ^ 63) (λ b. let no : ⊥ = ground arith in absurd no)
      (λ _. refl)

pub copy_request_limited :
    (free : ℕ → ℕ) (limit : ℕ) (body : Body)
    → 1 ≤ limit
    → limit + 1 < 2 ^ 63
    → copy_request free (pos limit) body
      ≡ copy_loop limit_read free
          (suc (reads body))
          (record { r = body; remain = pos (limit + 1); max = pos limit })
          []
unfolding copy_request new_limit_reader
copy_request_limited free limit body l w =
    if_intro
      (λ o.
        o
        ≡ copy_loop limit_read free (suc (reads body))
            (record { r = body; remain = pos (limit + 1); max = pos limit }) [])
      (ltb 0 limit)
      (λ _.
        ap
          (λ remain.
            copy_loop limit_read free (suc (reads body))
              (record { r = body; remain = remain; max = pos limit }) [])
          (add_one_lem limit w))
      (λ b. let no : ⊥ = ground arith in absurd no)

-- A copy gets to the end of a body before the remaining bytes are used up: EOF and the like are seen
-- where one byte remains, or along with the last bytes.
unfoldable IsWithin : ℕ → Body → Type 0
IsWithin m (ended e) = 1 ≤ m
IsWithin m (last b e) = (1 ≤ m) × (length b ≤ m)
IsWithin m (chunk b rest) = IsWithin (m - length b) rest

room_left : (m : ℕ) (body : Body) → IsWithin m body → 1 ≤ m
unfolding IsWithin
room_left m (ended e) h = h
room_left m (last b e) h = h.0
room_left m (chunk b rest) h = let some_left = room_left (m - length b) rest h in omega arith

below-IsWithin : (m : ℕ) (body : Body) → length (content body) < m → IsWithin m body
unfolding IsWithin content
below-IsWithin m (ended e) h = omega arith
below-IsWithin m (last b e) h = (omega arith, omega arith)
below-IsWithin m (chunk b rest) h =
    below-IsWithin (m - length b) rest (omega (arith, length-append b (content rest)))

-- The last read of a body returns some bytes along with the error at its end.
unfoldable pub IsEager : Body → Type 0
IsEager (ended e) = ⊥
IsEager (last b e) = 1 ≤ length b
IsEager (chunk b rest) = IsEager rest

eager-IsWithin : (m : ℕ) (body : Body) → IsEager body → length (content body) ≤ m → IsWithin m body
unfolding IsWithin IsEager content
eager-IsWithin m (ended e) h c = absurd h
eager-IsWithin m (last b e) h c = (omega arith, c)
eager-IsWithin m (chunk b rest) h c =
    eager-IsWithin (m - length b) rest h (omega (arith, length-append b (content rest)))

module _ (free : ℕ → ℕ) (roomy : (n : ℕ) → 1 ≤ free n) where
  -- The copy of a body that stays below what remains is the body, with its own end.
  abbrev Copies : ℕ → Type 0
  Copies fuel =
      (body : Body) (m : ℕ) (max : ℤ) (buffer : Bytes)
      → reads body ≤ fuel
      → IsWithin m body
      → is_nil (ending body) ≡ false
      → copy_loop limit_read free fuel (record { r = body; remain = pos m; max = max }) buffer
        ≡ some (outcome (buffer ++ content body) (ending body))

  copied-Copies :
      (fuel : ℕ)
      → Copies fuel
      → (body : Body) (m : ℕ) (max : ℤ) (buffer : Bytes) (k : ℕ) → reads body ≤ suc fuel
      → IsWithin m body
      → is_nil (ending body) ≡ false
      → 1 ≤ k
      → copied limit_read free
          (copy_loop limit_read free fuel)
          buffer
          (limited (record { r = body; remain = pos m; max = max }) (read_body k body))
        ≡ some (outcome (buffer ++ content body) (ending body))
  unfolding copied read_body content ending reads IsWithin
  copied-Copies fuel again (ended e) m max buffer k f c n p =
      copied-end limit_read free (copy_loop limit_read free fuel) buffer _ [] e n
  copied-Copies fuel again (last b e) m max buffer k f c n p =
      if_intro
        (λ (got : Read Body).
          copied limit_read free (copy_loop limit_read free fuel) buffer
            (limited (record { r = last b e; remain = pos m; max = max }) got)
          ≡ some (outcome (buffer ++ b) e))
        (leb (length b) k)
        (λ _. copied-end limit_read free (copy_loop limit_read free fuel) buffer _ b e n)
        (λ h.
          again (last (drop k b) e) (m - length (take k b)) max (buffer ++ take k b)
            (ground (arith, length-drop k b))
            (
              ground (arith, length-drop k b, length-take k b),
              ground (arith, length-drop k b, length-take k b),
            )
            n
          ∙ ap (λ t. some (outcome t e))
              (append_assoc buffer (take k b) (drop k b)
                ∙ ap (λ t. buffer ++ t) (take-append-drop k b)))
  copied-Copies fuel again (chunk b rest) m max buffer k f c n p =
      if_intro
        (λ (got : Read Body).
          copied limit_read free (copy_loop limit_read free fuel) buffer
            (limited (record { r = chunk b rest; remain = pos m; max = max }) got)
          ≡ some (outcome (buffer ++ (b ++ content rest)) (ending rest)))
        (leb (length b) k)
        (λ _.
          again rest (m - length b) max (buffer ++ b) (omega arith) c n
          ∙ ap (λ t. some (outcome t (ending rest))) (append_assoc buffer b (content rest)))
        (λ h.
          again (chunk (drop k b) rest) (m - length (take k b)) max (buffer ++ take k b)
            (ground (arith, length-drop k b))
            (subst (λ r. IsWithin r rest) (ground (arith, length-drop k b, length-take k b)) c) n
          ∙ ap (λ t. some (outcome t (ending rest))) (split_append k buffer b (content rest)))

  within : (fuel : ℕ) → Copies fuel
  unfolding copy_loop reads
  within zero (ended e) m max buffer f c n = absurd (omega arith)
  within zero (last b e) m max buffer f c n = absurd (omega arith)
  within zero (chunk b rest) m max buffer f c n = absurd (omega arith)
  within (suc fuel) body m max buffer f c n =
      ap (copied limit_read free (copy_loop limit_read free fuel) buffer)
        (limit_read_lem (free (length buffer)) m max body (room_left m body c))
      ∙ copied-Copies fuel (within fuel) body m max buffer
          (if ltb m (free (length buffer)) then m else free (length buffer)) f c n
          (if_intro (λ x. 1 ≤ x) (ltb m (free (length buffer))) (λ _. room_left m body c)
            (λ _. roomy (length buffer)))

  -- Under a limit above 0 that is not the last int64, a body of at most as many bytes as the limit is
  -- copied whole, with its own end, whatever its reads give and whatever space the buffer has for
  -- each of them, if it has any.
  pub copy_request_within :
      (limit : ℕ) (body : Body)
      → 1 ≤ limit
      → limit + 1 < 2 ^ 63
      → length (content body) ≤ limit
      → is_nil (ending body) ≡ false
      → copy_request free (pos limit) body ≡ some (outcome (content body) (ending body))
  copy_request_within limit body l w c n =
      copy_request_limited free limit body l w
      ∙ within (suc (reads body)) body (limit + 1) (pos limit) [] (omega arith)
          (below-IsWithin (limit + 1) body (omega arith)) n

  -- A body of one byte more than the limit gets through as well, without an error, if its last read
  -- returns EOF along with some bytes: whatever its reads give and whatever space the buffer has for
  -- each of them, if it has any, and for a limit above 0 that is not the last int64.
  pub copy_request-one_over :
      (limit : ℕ) (body : Body)
      → 1 ≤ limit
      → limit + 1 < 2 ^ 63
      → length (content body) ≡ limit + 1
      → IsEager body
      → ending body ≡ sentinel eof
      → copy_request free (pos limit) body ≡ some (content body, nil)
  unfolding outcome
  copy_request-one_over limit body l w c h e =
      copy_request_limited free limit body l w
      ∙ (within (suc (reads body)) body (limit + 1) (pos limit) [] (omega arith)
            (eager-IsWithin (limit + 1) body h (omega arith)) (ap is_nil e)
          ∙ ap (λ e. some (outcome (content body) e)) e)

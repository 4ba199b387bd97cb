-- ===== src/Body.antt =====
-- `LimitReader` of reader.go, and the copy of a body into a buffer.
pub mod Limits
pub mod Over
use duh_go.Prelude.{
  ℕ, zero, suc, ◌+◌, ◌-◌, ◌^◌, Bool, true, false, [], ◌++◌, Option, none, some, if◌then◌else◌, ltb,
  leb, ◌==◌, length, take, drop, ℤ, pos, negsuc, is_pos, pos_part,
}
use mathlib.Core.Bool.{not}
use duh_go.Errors.{GoError, nil, sentinel, eof, data_limit, is_nil}
use duh_go.Frames.{Bytes}

-- An `io.ReadCloser` by what its reads give: the bytes that one read can get at most; `last` gives an
-- error together with its bytes, as the body of an HTTP request does with EOF.
pub data Body : Type 0 where
  ended : GoError → Body
  last : Bytes → GoError → Body
  chunk : Bytes → Body → Body

-- A read's `n` bytes and `err`, with the reader behind it.
pub record Read (R : Type 0) : Type 0 where
  pub reader : R
  pub bytes : Bytes
  pub error : GoError

-- `r.Read(p)` for a `p` of `k` bytes.
unfoldable pub read_body : ℕ → Body → Read Body
read_body k (ended e) = record { reader = ended e; bytes = []; error = e }
read_body k (last b e) =
    if leb (length b) k
    then record { reader = ended e; bytes = b; error = e }
    else record { reader = last (drop k b) e; bytes = take k b; error = nil }
read_body k (chunk b rest) =
    if leb (length b) k
    then record { reader = rest; bytes = b; error = nil }
    else record { reader = chunk (drop k b) rest; bytes = take k b; error = nil }

pub record LimitReader : Type 0 where
  pub r : Body
  pub remain : ℤ
  pub max : ℤ

-- `n + 1` of an int64, which wraps at its end.
unfoldable pub add_one : ℤ → ℤ
add_one (pos n) = if n + 1 == 2 ^ 63 then negsuc (2 ^ 63 - 1) else pos (n + 1)
add_one (negsuc zero) = pos 0
add_one (negsuc (suc n)) = negsuc n

-- `NewLimitReader`
unfoldable pub new_limit_reader : Body → ℤ → LimitReader
new_limit_reader r n = record { r = r; remain = add_one n; max = n }

-- `(*LimitReader).Read` with what the read below it gave.
abbrev pub limited : LimitReader → Read Body → Read LimitReader
limited l got = record {
  reader = record l { r = got.reader; remain = pos (pos_part l.remain - length got.bytes) };
  bytes = got.bytes;
  error = got.error;
}

-- `(*LimitReader).Read`. A read gives at most the bytes that it is asked for, so `remain` stays at 0
-- or above.
unfoldable pub limit_read : ℕ → LimitReader → Read LimitReader
limit_read k l =
    if is_pos l.remain
    then limited l (read_body (if ltb (pos_part l.remain) k then pos_part l.remain else k) l.r)
    else record { reader = l; bytes = []; error = data_limit l.max }

-- `io.Copy` into a `bytes.Buffer`: reads until an error, of which EOF is the good one. `free` is the
-- space that the buffer has for the next read, of its length.
module _ {R : Type 0} (read : ℕ → R → Read R) (free : ℕ → ℕ) where
  unfoldable pub copied :
      (R → Bytes → Option (Bytes × GoError)) → Bytes → Read R → Option (Bytes × GoError)
  copied again buffer got = elim got.error [
    | nil ↦ again got.reader (buffer ++ got.bytes)
    | sentinel eof ↦ some (buffer ++ got.bytes, nil)
    | e ↦ some (buffer ++ got.bytes, e)
  ]

  unfoldable pub copy_loop : ℕ → R → Bytes → Option (Bytes × GoError)
  copy_loop zero r buffer = none
  copy_loop (suc fuel) r buffer = copied (copy_loop fuel) buffer (read (free (length buffer)) r)

-- The reads that a body can give.
unfoldable pub reads : Body → ℕ
reads (ended e) = 1
reads (last b e) = suc (length b)
reads (chunk b rest) = suc (length b + reads rest)

-- `io.Copy` of a body, behind a `LimitReader` if there is a limit.
unfoldable pub copy_request : (ℕ → ℕ) → ℤ → Body → Option (Bytes × GoError)
copy_request free limit body =
    if is_pos limit
    then copy_loop limit_read free (suc (reads body)) (new_limit_reader body limit) []
    else copy_loop read_body free (suc (reads body)) body []

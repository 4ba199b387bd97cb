-- ===== src/Samples.antt =====
-- Values that the tests and the instances of theorems share.
use duh_go.Prelude.{ℕ, [], ◌∷◌, Option, str, pos}
use duh_go.Prelude.{false, true, none, some, ltb, pos_part, ◌*◌, ◌-◌, ◌^◌, Text, suc, if◌then◌else◌}
use duh_go.Retry.{Floats, World, BackOff, Policy, back_off}
use duh_go.Service.{ResponseWriter, Message, message, reply_message}
use duh_go.Media.{Encoding}
use duh_go.Errors.{GoError, nil, plain, sentinel, eof, Go, wrapped, Reply}
use duh_go.Frames.{Bytes, Result, ok, err, Sink}
use duh_go.Streaming.Reader.{StreamReader}

-- A standard library that knows no status text but 502's and no character beyond ASCII.
instance abbrev pub sample_go : Go
sample_go = record {
  status_text = λ code. [];
  errorf = λ msg e. wrapped msg e;
  one_decimal = λ b div. str "1.0";
  lower_wide = λ c. c;
  space_wide = λ c. false;
}

abbrev pub broken : GoError
broken = plain (str "broken pipe")

abbrev pub sink_with : Option ℕ → Sink
sink_with room = record { written = []; flushed = 0; room = room; fault = broken }

-- A message is a number below 256, encoded as its byte.
abbrev pub to_byte : ℕ → Result Bytes
to_byte n = ok (n ∷ [])

abbrev pub of_byte : Bytes → Result ℕ
of_byte (n ∷ []) = ok n
of_byte _ = err (plain (str "not one byte"))

abbrev pub reply_bytes : Reply → Result Bytes
reply_bytes reply = ok reply.code

abbrev pub reply_of_bytes : Bytes → Result Reply
reply_of_bytes bytes = ok (record { code = bytes; message = []; details = [] })

abbrev pub reader_of : Bytes → StreamReader
reader_of bytes = record {
  source = record { bytes = bytes; ending = sentinel eof };
  max_payload = pos 4000000;
  status_code = 200;
  context_error = nil;
  heartbeat_timeout = pos 60;
  done = false;
  has_pending = false;
  canceled = false;
  body_closed = false;
}

-- Floats that are whole numbers, and texts of one digit.
abbrev pub whole_floats : Floats ℕ
whole_floats = record {
  of_duration = pos_part;
  of_nat = λ n. n;
  to_duration = pos;
  mul = λ a b. a * b;
  pow = λ a b. a ^ b;
  above_zero = λ a. ltb 0 a;
  parse_float = digit;
}
  where
    digit : Text → Option ℕ
    digit (c ∷ []) = some (c - b'0')
    digit _ = none

-- A world that counts calls, in which the context is never done.
abbrev pub calm : {W : Type 0} → World ℕ W
calm = record { done = λ w. none; wait = λ d w. (w, none); draw = λ w. 1 }

abbrev pub doubling : BackOff ℕ
doubling = record { min = pos 500; max = pos 5000; factor = 2; jitter = 0 }

abbrev pub thrice : Policy ℕ
thrice = record {
  interval = some (back_off doubling);
  on_codes = none;
  on_infra_codes = none;
  attempts = pos 3;
}

-- An operation that fails twice.
abbrev pub third_time : ℕ → ℕ → ℕ × GoError
third_time attempt calls = (suc calls, if ltb attempt 3 then broken else nil)

abbrev pub unsent : ResponseWriter
unsent = record { header = []; committed = none; sink = sink_with none; can_flush = true }

-- The code of a reply, under either encoding, as its only byte that is kept.
abbrev pub marshal_code : Encoding → Message ℕ → Result Bytes
marshal_code enc (message n) = ok (n ∷ [])
marshal_code enc (reply_message r) = ok r.code

abbrev pub unmarshal_code : Encoding → Bytes → Result Reply
unmarshal_code enc bytes = reply_of_bytes bytes

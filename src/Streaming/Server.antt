-- ===== src/Streaming/Server.antt =====
-- `HandleStream` of streaming.go from the construction of the writer on: the handler and the
-- heartbeat goroutine as a system of steps, in any order.
use duh_go.Prelude.{Bool, true, false, List, [], ◌∷◌, Option, if◌then◌else◌, ◌&&◌}
use duh_go.Prelude.{ℤ, pos, int_ltb, is_zero, none, some}
use duh_go.Errors.{GoError, is_nil, Go, Reply}
use duh_go.Frames.{Result, Bytes, Sink}
use duh_go.Streaming.Writer
use duh_go.Streaming.Writer.{StreamWriter, beat, finish}

-- A handler, by what it does with its `StreamWriter`: each call's error decides how it goes on.
pub data Handler (M : Type 0) : Type 0 where
  return : GoError → Handler M
  panic : Handler M
  send : M → (GoError → Handler M) → Handler M
  close : Option M → (GoError → Handler M) → Handler M

-- Where the request's goroutine stands: in the handler; in `stopHeartbeat`, called by `Close` or
-- after the handler has returned, where it waits for `stopped`; or behind the end, or behind a panic
-- of the handler, which leaves `HandleStream` without `stopHeartbeat`.
pub data Phase (M : Type 0) : Type 0 where
  serving : Handler M → Phase M
  closing : Option M → (GoError → Handler M) → Phase M
  returning : GoError → Phase M
  finished : Phase M
  panicked : Phase M

pub record System (M : Type 0) : Type 0 where
  pub phase : Phase M
  pub sw : StreamWriter

-- Who makes the next step: the request's goroutine, a tick of the heartbeat goroutine, or the
-- heartbeat goroutine on finding `stop` closed. With both cases of its `select` ready either is
-- taken, so ticks go on until it stops.
pub data Actor : Type 0 where
  handler ticker stopper : Actor

-- `close(sw.stop)`
unfoldable pub stop : StreamWriter → StreamWriter
stop sw = record sw { stopping = true }

module _ {M : Type 0} (marshal : M → Result Bytes) (marshal_reply : Reply → Result Bytes)
    ⦃go : Go⦄ where
  -- Back in the handler with the result of a call.
  unfoldable pub resume : (GoError → Handler M) → StreamWriter × GoError → System M
  resume k (sw, e) = record { phase = serving (k e); sw = sw }

  -- A step of the request's goroutine. It does not move while it waits for `stopped`.
  unfoldable pub advance : Phase M → StreamWriter → System M
  advance (serving (Handler.return e)) sw = record { phase = returning e; sw = stop sw }
  advance (serving Handler.panic) sw = record { phase = panicked; sw = sw }
  advance (serving (Handler.send msg k)) sw = resume k (Writer.send marshal msg sw)
  advance (serving (Handler.close msg k)) sw = record { phase = closing msg k; sw = stop sw }
  advance (closing msg k) sw =
      if sw.beating
      then record { phase = closing msg k; sw = sw }
      else resume k (Writer.close marshal msg sw)
  advance (returning e) sw =
      if sw.beating
      then record { phase = returning e; sw = sw }
      else record { phase = finished; sw = finish marshal_reply e sw }
  advance finished sw = record { phase = finished; sw = sw }
  advance panicked sw = record { phase = panicked; sw = sw }

  unfoldable pub step : Actor → System M → System M
  step handler s = advance s.phase s.sw
  step ticker s = if s.sw.beating then record s { sw = beat s.sw } else s
  step stopper s =
      if s.sw.beating && s.sw.stopping then record s { sw = record s.sw { beating = false } } else s

  -- The steps of a schedule, in order.
  unfoldable pub run : List Actor → System M → System M
  run [] s = s
  run (a ∷ as') s = run as' (step a s)

-- The writer that `HandleStream` makes, with the goroutine started or, for a negative interval,
-- `stopped` closed at once.
unfoldable pub start : {M : Type 0} → Bool → Sink → Handler M → System M
start heartbeats sink program = record {
  phase = serving program;
  sw = record { closed = false; stopping = false; beating = heartbeats; sink = sink };
}

-- Thirty seconds, in nanoseconds.
abbrev pub default_heartbeat_interval : ℤ
default_heartbeat_interval = pos 30000000000

-- The interval of the heartbeats, by the `StreamConfig`, if there is one.
unfoldable pub heartbeat_interval : Option ℤ → ℤ
heartbeat_interval none = default_heartbeat_interval
heartbeat_interval (some interval) =
    if is_zero interval then default_heartbeat_interval else interval

-- The writer under a `StreamConfig`: the goroutine is started for an interval above 0.
unfoldable pub start_configured : {M : Type 0} → Option ℤ → Sink → Handler M → System M
start_configured conf sink program = start (int_ltb (pos 0) (heartbeat_interval conf)) sink program

-- A handler that sends each message, returns on the first error, and closes the stream.
unfoldable pub emit : {M : Type 0} → List M → Option M → Handler M
emit [] final = Handler.close final (λ e. Handler.return e)
emit (msg ∷ msgs) final =
    Handler.send msg (λ e. if is_nil e then emit msgs final else Handler.return e)

-- ===== src/Launch.antt =====
-- cmd/demo/main.go: the life of the demo's server, from its flags to its exit.
--
-- Signals, `ListenAndServe` and `Shutdown` are events, in any order. Log lines are left out.
pub mod Graceful
use duh_go.Prelude.{ℕ, Bool, true, false, List, [], ◌∷◌, Option, none, some, Text, str}
use duh_go.Prelude.{if◌then◌else◌, ◌&&◌}
use mathlib.Core.Bool.{not}
use duh_go.Errors.{GoError, is_nil}

-- `config`
pub record ServerConfig : Type 0 where
  pub address : Text
  pub verbose : Bool

-- The flags that are not given.
abbrev pub default_server_config : ServerConfig
default_server_config = record { address = str "localhost:8080"; verbose = false }

-- How the process ends: `main` returns, or `checkErr` or `fail` exits with status 1, a format and an
-- error, or the flags do, with a status of their own.
pub data Ending : Type 0 where
  completed : Ending
  exited : Text → GoError → Ending
  refused_flags : ℕ → Ending

-- The process: `pending` is a signal in the channel `stop`, which has room for one; `listening` is
-- the goroutine of `ListenAndServe`, and `shutting_down` is `main` in `Shutdown`.
pub record Process : Type 0 where
  pub address : Text
  pub pending : Bool
  pub listening : Bool
  pub shutting_down : Bool
  pub ending : Option Ending

-- What happens: a signal comes, `main` gets it from the channel, and the two calls return.
pub data Happening : Type 0 where
  signal received : Happening
  listened : GoError → Happening
  shut_down : GoError → Happening

-- What `f.Parse` gives, with the defaults for the flags that are not there: it exits itself where it
-- has an error.
pub data Flags : Type 0 where
  parsed : ServerConfig → Flags
  refused : ℕ → Flags

-- `main` up to the wait for a signal.
unfoldable pub launch : Flags → Process
launch (refused status) = record {
  address = [];
  pending = false;
  listening = false;
  shutting_down = false;
  ending = some (refused_flags status);
}
launch (parsed c) = record {
  address = c.address;
  pending = false;
  listening = true;
  shutting_down = false;
  ending = none;
}

-- `checkErr(err, "during service shutdown")`, and the end of `main`.
abbrev pub shutdown_ending : GoError → Ending
shutdown_ending e = if is_nil e then completed else exited (str "during service shutdown") e

-- `is_closed` is `errors.Is(err, http.ErrServerClosed)`.
module _ (is_closed : GoError → Bool) where
  -- The end of the goroutine.
  abbrev pub listen_ending : GoError → Option Ending
  listen_ending e =
      if not (is_nil e) && not (is_closed e)
      then some (exited (str "ListenAndServe(): %v") e)
      else none

  unfoldable pub happen : Happening → Process → Process
  happen signal p = record p { pending = true }
  happen received p =
      if p.pending && not p.shutting_down
      then record p { pending = false; shutting_down = true }
      else p
  happen (listened e) p =
      if p.listening then record p { listening = false; ending = listen_ending e } else p
  happen (shut_down e) p =
      if p.shutting_down then record p { ending = some (shutdown_ending e) } else p

  -- Nothing happens behind the end.
  unfoldable pub unless_ended : Option Ending → Happening → Process → Process
  unless_ended none event p = happen event p
  unless_ended (some ending) event p = p

  unfoldable pub live : List Happening → Process → Process
  live [] p = p
  live (event ∷ events) p = live events (unless_ended p.ending event p)

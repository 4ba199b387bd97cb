-- ===== src/Command/Start.antt =====
-- cmd/duh/main.go: the command from its arguments on, and the status with which it ends.
use duh_go.Prelude.{ℕ, Bool, false, List, [], ◌∷◌, Option, none, some, Text, str, ℤ}
use duh_go.Errors.{GoError, Go}
use duh_go.Frames.{Result, ok, err}
use duh_go.Command.{Libraries, Settings, Exit, check_err, run_main}

-- `config`, but for the name of the file.
pub record CommandConfig : Type 0 where
  pub address : Text
  pub timeout : Text
  pub verbose : Bool

-- The flags that are not given.
abbrev pub default_command_config : CommandConfig
default_command_config = record {
  address = str "localhost:8080";
  timeout = str "10s";
  verbose = false;
}

-- What `f.Parse` makes of the arguments: the flags and what stands behind them, or, since the flag
-- set exits on an error, a status.
pub data Arguments : Type 0 where
  parsed : CommandConfig → List Text → Arguments
  refused : ℕ → Arguments

-- How the command ends early: by the flags, without a file in the arguments, or by an `Exit`.
pub data Stop : Type 0 where
  flags : ℕ → Stop
  no_file : Stop
  stopped : Exit → Stop

-- `parseTimeout`: the duration that `time.ParseDuration` gives, its error ignored.
unfoldable pub parse_timeout : (Text → ℤ × GoError) → Text → ℤ
parse_timeout parse_duration s = (parse_duration s).0

abbrev pub settings : CommandConfig → Settings
settings c = record { address = c.address; verbose = c.verbose }

-- `lib` is the libraries under the timeout of a request, and `read` the text of a file, or the error
-- with which it does not open.
module _ {V W : Type 0} (lib : ℤ → Libraries V W) (parse_duration : Text → ℤ × GoError)
    (read : Text → Result Text) (too_long : GoError) ⦃go : Go⦄ where
  abbrev pub stopped_by : W × Option Exit → W × Option Stop
  stopped_by (w, none) = (w, none)
  stopped_by (w, some x) = (w, some (stopped x))

  -- `os.Open`, and the documents of the file.
  abbrev pub run_file : CommandConfig → Result Text → W → W × Option Stop
  run_file c (err e) w = (w, some (stopped (check_err (str "Error opening file") e)))
  run_file c (ok file) w =
      stopped_by
        (run_main (lib (parse_timeout parse_duration c.timeout)) (settings c) too_long file w)

  -- `main`
  unfoldable pub run_command : Arguments → W → W × Option Stop
  run_command (refused status) w = (w, some (flags status))
  run_command (parsed c []) w = (w, some no_file)
  run_command (parsed c (name ∷ names)) w = run_file c (read name) w

-- The status of the process.
unfoldable pub exit_status : Option Stop → ℕ
exit_status none = 0
exit_status (some (flags n)) = n
exit_status (some no_file) = 1
exit_status (some (stopped x)) = 1

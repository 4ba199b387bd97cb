-- ===== src/Runs/Command.antt =====
-- Runs of the command, of its scanner and of the log adaptor, and the theorems on them.
use duh_go.Prelude.{
  ℕ, zero, suc, false, List, [], ◌∷◌, ◌++◌, ◌≡◌, ◌==◌, refl, ap, arith, length, none, some, Text,
  str, text_eq, All,
}
use mathlib.Core.List.{map}
use duh_go.Errors.{GoError, nil, plain}
use duh_go.Errors.Size.{scale, unit_of}
use duh_go.Errors.Size.Bounds.{IsScale, scale-IsScale}
use duh_go.Frames.{Bytes, ok}
use duh_go.Lines.{newline, scan, drop_cr}
use duh_go.Log.{
  HttpLogAdaptor, new_http_log_adaptor, close, write, piped, feed, read_byte, read_nothing,
  closed_pipe, info, error,
}
use duh_go.Log.Pieces.{IsSteady, concatenated, entries, write_all, close-write_all}
use duh_go.Client.{answered}
use duh_go.Command.{Libraries, Settings, Api, check_err, run_main}
use duh_go.Command.Documents.{IsContent, text_of, separated, process_all, run_main-separated}
use duh_go.Command.Cut.{run_main-text_of}
use duh_go.Samples.{sample_go, reply_of_bytes}

scale-IsScale_example : IsScale 1000 1536001 (scale 1536001)
unfolding unit_of
scale-IsScale_example = scale-IsScale 1536001 (omega arith) (omega arith)

close-write_all_example :
    (close (write_all (str "a" ∷ [] ∷ str "b\nc" ∷ []) new_http_log_adaptor)).log
    ≡ entries (scan [] (concatenated (str "a" ∷ [] ∷ str "b\nc" ∷ [])))
unfolding IsSteady
close-write_all_example = close-write_all (str "a" ∷ [] ∷ str "b\nc" ∷ []) (omega arith, tt)

-- So many writes of no bytes.
unfoldable empty_writes : ℕ → List Bytes
empty_writes zero = []
empty_writes (suc n) = [] ∷ empty_writes n

-- A write to the adaptor that has read so many empty ones, after an "a".
abbrev written_late : ℕ → HttpLogAdaptor × (ℕ × GoError)
written_late n = write (str "b") (write_all (str "a" ∷ empty_writes n) new_http_log_adaptor)

written_late_runs :
    ((written_late 100).1 ≡ (1, nil))
    × ((written_late 101).1 ≡ (0, closed_pipe))
    × ((written_late 101).0.log ≡ info (str "a") ∷ error (str "while reading from Writer") ∷ [])
unfolding write_all write piped feed read_byte read_nothing empty_writes drop_cr
written_late_runs = (refl, refl, refl)

-- Every document has its text as its api; the world is the URLs that were sent to.
abbrev sample_libraries : Libraries ℕ (List Text)
sample_libraries = record {
  yaml = λ t. ok (record { api = some (Api.text t); resource = some 5 });
  json = λ n. ok (n ∷ []);
  indent_error = λ d. nil;
  json_reply = reply_of_bytes;
  http = record {
    parse_error = λ url. nil;
    canceled = λ body. body;
    context_error = nil;
    exchange = λ o w. (
      w ++ o.url ∷ [],
      answered (record {
        status_code = 200;
        status = str "200 OK";
        header = [];
        body = record { bytes = []; ending = nil };
      }),
    );
  };
}

abbrev sample_settings : Settings
sample_settings = record { address = str "a:1"; verbose = false }

api_line-IsContent : IsContent (str "api")
unfolding drop_cr text_eq
api_line-IsContent = record {
  is_line = record { whole = (refl, (refl, (refl, tt))); plain = refl; short = omega arith };
  kept = refl;
}

run_main-separated_example :
    run_main sample_libraries sample_settings
      (plain (str "token too long"))
      (text_of (separated (str "api" ∷ []) ((str "api" ∷ []) ∷ [])))
      []
    ≡ process_all sample_libraries sample_settings
        (λ w. (w, none))
        0
        (text_of (str "api" ∷ []) ∷ map text_of ((str "api" ∷ []) ∷ []))
        []
run_main-separated_example =
    run_main-separated sample_libraries sample_settings (plain (str "token too long"))
      (str "api" ∷ []) ((str "api" ∷ []) ∷ []) [] (api_line-IsContent, tt)
      ((api_line-IsContent, tt), tt)

-- A line of so many x.
unfoldable line_of : ℕ → Text
line_of zero = []
line_of (suc n) = 120 ∷ line_of n

length-line_of : (n : ℕ) → length (line_of n) ≡ n
unfolding line_of
length-line_of zero = refl
length-line_of (suc n) = ap suc (length-line_of n)

line_of_whole : (n : ℕ) → All (λ c. (c == newline) ≡ false) (line_of n)
unfolding line_of
line_of_whole zero = tt
line_of_whole (suc n) = (refl, line_of_whole n)

run_main-text_of_example :
    run_main sample_libraries sample_settings
      (plain (str "token too long"))
      (text_of (separated (str "api" ∷ []) ((str "api" ∷ []) ∷ []))
        ++ (line_of 70000 ++ str "\n---\napi\n"))
      []
    ≡ process_all sample_libraries sample_settings
        (λ w. (w, some (check_err (str "while scanning '%s'") (plain (str "token too long")))))
        0
        (text_of (str "api" ∷ []) ∷ map text_of ((str "api" ∷ []) ∷ []))
        []
run_main-text_of_example =
    run_main-text_of sample_libraries sample_settings (plain (str "token too long"))
      (str "api" ∷ []) ((str "api" ∷ []) ∷ []) (line_of 70000) (str "\n---\napi\n") []
      (api_line-IsContent, tt) ((api_line-IsContent, tt), tt) (line_of_whole 70000)
      (omega (arith, length-line_of 70000))

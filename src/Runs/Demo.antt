-- ===== src/Runs/Demo.antt =====
-- Runs of the demo, and the theorems on it at concrete inputs.
use duh_go.Prelude.{
  ℕ, [], ◌∷◌, ◌++◌, length, take, drop, str, text_eq, ℤ, pos, ltb, ◌≡◌, refl, arith, ◌+◌, ◌*◌, itoa,
  decimal, ◌-◌,
}
use duh_go.Errors.{Details, index, lookup, Reply, nil, sentinel, eof}
use duh_go.Frames.{Bytes, Result, ok}
use duh_go.Body.{last}
use duh_go.Body.Limits.{content, ending}
use duh_go.Service.{Message, message, reply_message}
use duh_go.Demo.Store.{Store, store_content}
use duh_go.Demo.Router.{stored_reply, Codecs, Answers}
use duh_go.Demo.Link.{Link}
use duh_go.Demo.Served.{IsFaithful}
use duh_go.Demo.Client.{Demo, upload_content, download_content}
use duh_go.Demo.RoundTrip.{client_at, uploaded, Spares, upload_content-download_content}
use duh_go.Samples.{sample_go, unsent, broken}

-- A stored reply is its path and its size, after the path's length.
abbrev reply_text : Message Answers → Bytes
reply_text (message a) = str "-"
reply_text (reply_message r) =
    let path = index (str "path") r.details in length path ∷ path ++ index (str "size") r.details

abbrev text_reply : Bytes → Result Reply
text_reply [] = ok (record { code = []; message = []; details = [] })
text_reply (n ∷ b) = ok (record {
  code = str "200";
  message = str "content stored";
  details = (str "path", take n b) ∷ (str "size", drop n b) ∷ [];
})

abbrev pub sample_codecs : Codecs ℕ
sample_codecs = record {
  marshal = λ enc m. ok (reply_text m);
  hello_request = λ enc b. ok b;
  pixel_request =
      λ enc b. ok (record { complexity = 4; height = pos 8; width = pos 8; i = pos 1; j = pos 1 });
  events_request = λ enc b. ok (pos 3);
  download_request = λ enc b. ok b;
  title = λ t. t;
  float = record {
    of_int = λ (n : ℤ). 0;
    to_int = pos;
    add = λ a b. a + b;
    sub = λ a b. a - b;
    mul = λ a b. a * b;
    div = λ a b. a;
    lt = ltb;
  };
  free = λ n. 512;
}

-- Every host has a name of four letters.
abbrev pub sample_link : Link
sample_link = record {
  path_of = drop 11;
  carry = λ b. last b (sentinel eof);
  fresh = unsent;
  status = str "200 OK";
  lost = broken;
  parse_error = λ url. nil;
  canceled = λ body. body;
  context_error = nil;
}

pub sample_link-IsFaithful : IsFaithful sample_link
unfolding content ending
sample_link-IsFaithful = record {
  carries = λ b. refl;
  ends = λ b. refl;
  unsent = record { uncommitted = refl; empty = refl; unbroken = refl };
}

abbrev sample_client : Demo Store
sample_client = client_at sample_codecs sample_link (str "http://demo") (λ enc b. text_reply b)

abbrev with_a : Store
with_a = store_content (str "a") (str "text/plain") (1 ∷ 2 ∷ 3 ∷ []) []

abbrev with_b : Store
with_b = uploaded ((str "b", (str "image/png", 9 ∷ [])) ∷ []) with_a

upload_content-download_content_example :
    (upload_content sample_client (str "a") (str "text/plain") (1 ∷ 2 ∷ 3 ∷ []) []
      ≡ (with_a, ok (stored_reply sample_codecs (str "a") (1 ∷ 2 ∷ 3 ∷ []))))
    × ((header : Details) × (download_content sample_client (λ t. ok t) (str "a") with_b
          ≡ (with_b, (1 ∷ 2 ∷ 3 ∷ [], ok header)))
        × (index (str "Content-Type") header ≡ str "text/plain"))
unfolding text_eq Spares index lookup itoa decimal
upload_content-download_content_example =
    upload_content-download_content sample_codecs sample_link sample_link-IsFaithful
      (λ n. omega arith) (str "http://demo") (λ enc b. text_reply b) (λ t. ok t) (str "a")
      (str "text/plain") (1 ∷ 2 ∷ 3 ∷ []) (1 ∷ str "a3") (str "a")
      ((str "b", (str "image/png", 9 ∷ [])) ∷ []) [] (record { accepted = refl; path = refl })
      (record { accepted = refl; path = refl }) refl (omega arith) refl refl refl (omega arith) refl
      (refl, tt)

-- ===== src/Demo/Link.antt =====
-- The demo's client and its handler, joined by a connection that carries every byte.
use duh_go.Prelude.{Option, none, some, Text}
use duh_go.Errors.{GoError, Go}
use duh_go.Frames.{Bytes, Source}
use duh_go.Body.{Body}
use duh_go.Service.{ResponseWriter}
use duh_go.Client.{Answer, answered, failed}
use duh_go.Client.Arrives.{response_of}
use duh_go.Demo.Store.{Store}
use duh_go.Demo.Router.{Incoming, Served, replied, streaming, Codecs, serve_http}
use duh_go.Demo.Client.{Outgoing, Http}

-- What net/http does between the two: the path of a URL, the body that the handler reads, the
-- response that the handler starts with, the status line, and the client's error where the handler
-- does not reply, what is read of a canceled body, and what the context of a request says when a read
-- of a stream has failed. Headers arrive as they are set.
pub record Link : Type 0 where
  pub path_of : Text → Text
  pub carry : Bytes → Body
  pub fresh : ResponseWriter
  pub status : Text
  pub lost : GoError
  pub parse_error : Text → GoError
  pub canceled : Source → Source
  pub context_error : GoError

module _ (link : Link) where
  abbrev pub arriving : Outgoing → Incoming
  arriving o = record {
    method = o.method;
    path = link.path_of o.url;
    header = o.header;
    body = link.carry o.body;
  }

  -- The answer to a request. The client of a stream, which `Streaming` is about, is not joined here.
  abbrev pub answer_of : Store → Option (Store × Served) → Store × Answer
  answer_of s none = (s, failed link.lost)
  answer_of s (some (s', replied w)) = (s', answered (response_of link.status w))
  answer_of s (some (s', streaming enc w h)) = (s', failed link.lost)

  -- The client's HTTP, with the handler behind it.
  abbrev pub linked : {F : Type 0} → Codecs F → ⦃go : Go⦄ → Http Store
  linked codecs = record {
    parse_error = link.parse_error;
    canceled = link.canceled;
    context_error = link.context_error;
    exchange = λ o s. answer_of s (serve_http codecs (arriving o) s link.fresh);
  }

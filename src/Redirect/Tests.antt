-- ===== src/Redirect/Tests.antt =====
-- Runs of echocorn/redirect.py at concrete inputs.
use echocorn.Base.{
  ℕ, ◌+◌, ◌≡◌, refl, ◌⊎◌, inl, Bool, true, false, Option, none, some, List, [], ◌∷◌, ◌++◌,
}
use echocorn.Base.Bytes.{Bytes, codes}
use echocorn.Redirect.Location.{ServerConfig, build_location, IsRedirect, build_location-IsRedirect}
use echocorn.Redirect.Reply.{Reply, reply_to, IsSafe, reply_to-IsSafe}
use echocorn.Redirect.Protocol.{
  Surroundings, RedirectProtocol, Event, made, received, aborted, lost, init, run, data_received,
  response_of,
}
use echocorn.Redirect.Protocol.Once.{IsValid, run-IsValid, data_received-ends}

abbrev config : ServerConfig
config = record {
  bind_domain = codes "fallback";
  port = 8443;
  max_connections = 9;
  max_header_size = 100;
  request_timeout = 5;
  redirect_status = 308;
}

abbrev env : Surroundings
env = record {
  config = config;
  https_port = none;
  status_phrase = λ status. codes "Phrase";
  date = codes "now";
  server_header = codes "echocorn";
}

abbrev head : Bytes
head = codes "GET /a?b HTTP/1.1\r\nHost: h:80"

location_built :
    build_location config (codes "/a?b") (codes "h:80") none ≡ some (codes "https://h:8443/a?b")
unfolding build_location echocorn.Base.Pattern.has_illegal_target echocorn.Base.Numerals.decimal
location_built = refl

build_location-IsRedirect_example : IsRedirect (codes "/a?b") (codes "https://h:8443/a?b")
build_location-IsRedirect_example =
    build_location-IsRedirect config (codes "/a?b") (codes "h:80") none (codes "https://h:8443/a?b")
      location_built

reply_to-IsSafe_example : IsSafe (reply_to config none none head)
reply_to-IsSafe_example = reply_to-IsSafe config none none head

abbrev events : List Event
events =
    made 1
    ∷ received none head
    ∷ received none (codes "\r\n\r\n")
    ∷ received none (codes "x")
    ∷ aborted
    ∷ lost
    ∷ []

run-IsValid_example : IsValid (run env events init)
run-IsValid_example = run-IsValid env events

abbrev waiting : RedirectProtocol
waiting = record {
  transport = true;
  buffer = head;
  timer = true;
  answered = false;
  closed = false;
  released = false;
  written = [];
  closes = 0;
  resets = 0;
  listed = true;
  releases = 0;
}

data_received-ends_example :
    (reply : Reply) × ((data_received env none (codes "\r\n\r\n") waiting).answered ≡ true)
    × ((data_received env none (codes "\r\n\r\n") waiting).closed ≡ true)
    × ((data_received env none (codes "\r\n\r\n") waiting).released ≡ true)
    × ((data_received env none (codes "\r\n\r\n") waiting).timer ≡ false)
    × ((data_received env none (codes "\r\n\r\n") waiting).closes ≡ waiting.closes + 1)
    × ((data_received env none (codes "\r\n\r\n") waiting).written
        ≡ [] ++ (response_of env reply ∷ []))
unfolding echocorn.Base.Bytes.find
data_received-ends_example =
    data_received-ends env none (codes "\r\n\r\n") waiting refl refl refl (inl refl)

-- ===== src/Http1/Tests.antt =====
-- Runs of the parsers of echocorn/http1.py at concrete inputs.
use echocorn.Base.{
  ℕ, ◌≡◌, inr, List, ◌++◌, ◌≤◌, refl, true, false, Option, none, some, [], ◌∷◌, arith, drop,
}
use echocorn.Base.Bytes.{Bytes, codes}
use echocorn.Http1.Error.{ok}
use echocorn.Http1.Chunked.{init, feed, feed_fuel, trailer, data_, Fed}
use echocorn.Http1.Chunked.Append.{feed-append}
use echocorn.Http1.Chunked.Stream.{joined, FedAgrees}
use echocorn.Http1.Chunked.Decode.{feed-enough}
use echocorn.Http1.Chunked.Encode.{encode_body}
use echocorn.Http1.Chunked.RoundTrip.{encode_body-feed}
use echocorn.Http1.Head.{ParsedHead, Url, parse_request_head}
use echocorn.Http1.Fields.{ServerConfig}
use echocorn.Http1.Head.Framing.{IsFramed, parse_request_head-IsFramed}

abbrev sent : Bytes
sent = codes "3\r\nabc\r\n0\r\n\r\nGET"

feed-enough_example : feed_fuel 40 100 sent init ≡ feed 100 sent init
feed-enough_example = feed-enough 40 100 sent init (omega arith)

sent_decoded :
    feed 100 sent init
    ≡ ok (record {
      chunks = codes "abc" ∷ [];
      buffer = codes "GET";
      decoder = record { state = trailer; remaining = 0; done = true; trailers = [] };
    })
unfolding feed echocorn.Base.Pattern.hex_match
sent_decoded = refl

abbrev config : ServerConfig
config = record { max_header_size = 200; max_header_count = 9; max_request_size = 100 }

-- a parser that reads no authority
abbrev no_url : Bytes → Option Url
no_url target = none

abbrev request : Bytes
request = codes "POST /a HTTP/1.1\r\nHost: h\r\nTransfer-Encoding: chunked\r\n\r\n0\r\n"

abbrev parsed : ParsedHead
parsed = record {
  method = codes "POST";
  target = codes "/a";
  version = codes "1.1";
  headers = (codes "host", codes "h") ∷ (codes "transfer-encoding", codes "chunked") ∷ [];
  content_length = none;
  chunked = true;
  keep_alive = true;
  expect_continue = false;
  host = codes "h";
}

request-parsed : parse_request_head no_url config request ≡ ok (some (parsed, codes "0\r\n"))
unfolding parse_request_head echocorn.Base.Pattern.has_illegal_target
    echocorn.Base.Pattern.token_match echocorn.Base.Pattern.has_illegal_value
    echocorn.Base.Bytes.strip_blanks echocorn.Utils.Authority.valid_authority
request-parsed = refl

parse_request_head-IsFramed_example :
    IsFramed parsed × ((n : ℕ) × (codes "0\r\n" ≡ drop n request) × (4 ≤ n) × (n ≤ 200))
parse_request_head-IsFramed_example =
    parse_request_head-IsFramed no_url config request parsed (codes "0\r\n") request-parsed

abbrev two_chunks : List Bytes
two_chunks = codes "abc" ∷ codes "d" ∷ []

encode_body-feed_example :
    feed 100 (encode_body two_chunks (codes "GET")) init
    ≡ ok (record {
      chunks = two_chunks;
      buffer = codes "GET";
      decoder = record { state = trailer; remaining = 0; done = true; trailers = [] };
    })
encode_body-feed_example =
    encode_body-feed 100 two_chunks (codes "GET")
      ((refl, omega arith, inr (omega arith)), ((refl, omega arith, inr (omega arith)), tt))

two_chunks_encoded :
    encode_body two_chunks (codes "GET") ≡ codes "3\r\nabc\r\n1\r\nd\r\n0\r\n\r\nGET"
unfolding encode_body echocorn.Base.Numerals.hexadecimal
two_chunks_encoded = refl

-- The stream is cut in the middle of a chunk.
abbrev first_fed : Fed
first_fed = record {
  chunks = codes "a" ∷ [];
  buffer = [];
  decoder = record { state = data_; remaining = 2; done = false; trailers = [] };
}

first_piece : feed 100 (codes "3\r\na") init ≡ ok first_fed
unfolding feed echocorn.Base.Pattern.hex_match
first_piece = refl

feed-append_example :
    FedAgrees
      (joined first_fed.chunks)
      (feed 100 (codes "3\r\na" ++ codes "bc\r\n0\r\n\r\nGET") init)
      (feed 100 (first_fed.buffer ++ codes "bc\r\n0\r\n\r\nGET") first_fed.decoder)
feed-append_example =
    feed-append 100 (codes "3\r\na") (codes "bc\r\n0\r\n\r\nGET") init first_fed first_piece refl

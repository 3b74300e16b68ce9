-- ===== src/Http1/Response/Tests.antt =====
-- Runs of the response writer of echocorn/http1.py at concrete inputs.
use echocorn.Base.{
  ◌≡◌, inr, refl, true, false, ◌||◌, none, some, List, [], ◌∷◌, ◌++◌, arith, take, length,
}
use echocorn.Base.Bytes.{Bytes, codes}
use echocorn.Utils.Headers.{pair, bytes}
use echocorn.Http1.Error.{ok}
use echocorn.Http1.Chunked.{init, feed, trailer}
use echocorn.Http1.Writer.{Env, Scope, Writer}
use echocorn.Http1.Response.{Message, start, body, trailers, finished, writer, write_response}
use echocorn.Http1.Response.Delimited.{has_length, write_response-IsDelimited}
use echocorn.Http1.Response.Length.{content, write_response-length}
use echocorn.Http1.Response.Chunks.{pieces, write_response-feed}
use echocorn.Http1.Response.Finish.{write_response-finishes}
use echocorn.Http1.Response.Late.{chunks_of, write_response-trailers}

-- a server without compression, whose transport never fails and that reads one length
abbrev env : Env
env = record {
  compression = false;
  safe_headers = false;
  int_of = λ s. some 3;
  negotiate = λ headers. none;
  status_phrase = λ status. codes "OK";
  date = codes "now";
  compress = λ encoding seen s. s;
  flush = λ encoding seen. [];
  broken = λ before s. false;
}

abbrev scope : Scope
scope = record { method = codes "GET"; http_version = codes "1.1"; headers = [] }

abbrev fresh : Writer
fresh = record {
  headers = [];
  compressor = none;
  chunked = false;
  started = false;
  aborted = false;
  trailers_expected = false;
  awaiting_trailers = false;
  discard_body = false;
  declared_length = none;
  body_bytes = 0;
  status = none;
  keep_alive = true;
  bytes_sent = 0;
  wire = [];
  closed = false;
}

abbrev plain : Writer
plain = record fresh { started = true; declared_length = some 3; wire = codes "head" }

abbrev chunked : Writer
chunked = record fresh { started = true; chunked = true; wire = codes "head" }

abbrev two_pieces : List Message
two_pieces = body (codes "ab") true false ∷ body (codes "c") false false ∷ []

write_response-IsDelimited_example :
    ((writer (write_response env scope (start 200 [] false true ∷ []) fresh)).discard_body
      || (writer (write_response env scope (start 200 [] false true ∷ []) fresh)).chunked
      || has_length (writer (write_response env scope (start 200 [] false true ∷ []) fresh)))
    ≡ true
unfolding write_response
write_response-IsDelimited_example =
    write_response-IsDelimited env scope (start 200 [] false true ∷ []) fresh (λ s k. cc) refl refl

abbrev plain_end : Writer
plain_end = record plain { body_bytes = 3; bytes_sent = 3; wire = codes "headabc" }

plain_run : write_response env scope two_pieces plain ≡ finished plain_end
unfolding write_response
plain_run = refl

write_response-length_example :
    (plain_end.wire ≡ plain.wire ++ take 3 (content two_pieces))
    × (plain_end.keep_alive ≡ true → length (content two_pieces) ≡ 3)
write_response-length_example =
    write_response-length env scope 3 two_pieces plain plain_end
      (refl, refl, refl, refl, refl, refl, refl, omega arith) refl refl plain_run refl

abbrev chunked_end : Writer
chunked_end = record chunked {
  body_bytes = 3;
  bytes_sent = 3;
  wire = codes "head2\r\nab\r\n1\r\nc\r\n0\r\n\r\n";
}

chunked_run : write_response env scope two_pieces chunked ≡ finished chunked_end
unfolding write_response
chunked_run = refl

write_response-feed_example :
    (t : Bytes) × (chunked_end.wire ≡ chunked.wire ++ t)
    × (feed 100 (t ++ codes "HTTP") init
        ≡ ok (record {
          chunks = pieces two_pieces;
          buffer = codes "HTTP";
          decoder = record { state = trailer; remaining = 0; done = true; trailers = [] };
        }))
write_response-feed_example =
    write_response-feed env scope 100 two_pieces (codes "HTTP") chunked chunked_end
      (refl, refl, refl, refl, refl, refl, refl) refl
      ((refl, omega arith, inr (omega arith)), ((refl, omega arith, inr (omega arith)), tt))
      chunked_run refl

-- a body with trailers announced, and messages behind the end
abbrev with_trailers : List Message
with_trailers =
    body (codes "ab") false false
    ∷ trailers (pair (bytes (codes "x")) (bytes (codes "y")) ∷ []) false
    ∷ two_pieces

write_response-finishes_example :
    (w' : Writer) × (write_response env scope with_trailers
        (record chunked { trailers_expected = true })
      ≡ finished w')
write_response-finishes_example =
    write_response-finishes env scope true with_trailers
      (record chunked { trailers_expected = true }) (refl, λ h. refl) refl

abbrev cut_short : List Message
cut_short = body (codes "ab") true false ∷ trailers [] false ∷ two_pieces

cut_writer : Writer
cut_writer = writer (write_response env scope cut_short chunked)

cut_run : write_response env scope cut_short chunked ≡ finished cut_writer
unfolding write_response cut_writer
cut_run = refl

write_response-trailers_example :
    (cut_writer.keep_alive ≡ true)
    × (cut_writer.closed ≡ false
        → cut_writer.wire ≡ chunked.wire ++ chunks_of (body (codes "ab") true false ∷ []))
write_response-trailers_example =
    write_response-trailers env scope (body (codes "ab") true false ∷ []) [] two_pieces chunked
      cut_writer (refl, refl, refl, refl, refl, refl, refl) refl refl cut_run

cut_wire : (cut_writer.closed ≡ false) × (cut_writer.wire ≡ chunked.wire ++ codes "2\r\nab\r\n")
unfolding write_response cut_writer
cut_wire = (refl, refl)

not_started : Writer
not_started =
    writer (write_response env scope (body (codes "ab") true false ∷ trailers [] false ∷ []) fresh)

not_started_status : not_started.status ≡ some 500
unfolding write_response not_started
not_started_status = refl

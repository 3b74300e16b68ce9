-- ===== src/Lib.antt =====
-- A verification library for echocorn, an ASGI server for HTTP/1.1, HTTP/2 and WebSocket.
--
-- The server (echocorn/server.py) accepts connections; a protocol handler (echocorn/http1.py,
-- echocorn/http2.py) reads requests, asks the rate limiter (echocorn/ratelimit.py) whether to serve
-- them, and runs the application through an exchange with two queues (`ASGIRequest` of
-- echocorn/utils.py), whose response messages a writer puts on the wire. Header, authority and log
-- helpers of echocorn/utils.py are shared by all of them.
--
-- RateLimit models echocorn/ratelimit.py. RateLimit holds the limits, the sizes and the keys;
-- RateLimit.Local is `LocalCounters`, with its dictionaries as association lists in order of
-- insertion (Dict); RateLimit.Shared is a slot of `SharedCounters` with `_decide`; RateLimit.Table is
-- the table of slots with probing, sweep and fallback; RateLimit.Limiter is `RateLimiter` over
-- either. RateLimit.Client is the specification: the window of one client and nothing else. Moments
-- and durations are natural numbers of some smallest tick, where the source has floats, and a
-- comparison with `now - window` is written as one with a sum. The shards' mutexes are a parameter
-- that says which of them cannot be taken, `zlib.crc32` and the packing of an address are parameters
-- too.
--
-- Utils models echocorn/utils.py: Utils.Authority (`valid_authority`, `authority_host`), Utils.Headers
-- (lookup, `add_vary`, `normalize_response_headers`), Utils.Response (bodies and compression),
-- Utils.Log (`log_field`) and Utils.Asgi (`ASGIRequest`: the queues and flags, with each await that
-- waits as a result of its own, so that other tasks' steps can come between).
--
-- Http1 models echocorn/http1.py: Http1.Error (`_ProtocolError` and results), Http1.Chunked
-- (`ChunkedDecoder`, one turn of the loop at a time; the fuel of `feed` is one more than the bytes in
-- the buffer, of which each turn that goes on takes two), Http1.Fields (the request line and the
-- header fields) and Http1.Head (`parse_request_head`, with `urllib.parse.urlsplit` as a parameter).
-- Http1.Writer, Http1.Start and Http1.Response are the response side of `HTTP11Handler`:
-- `_write_response` as one function of the messages that the application sends, with what `_write`
-- puts on the wire; a transport that raises, zlib (which raises behind its `flush`), the date and the
-- reason phrases are parameters. Http1.Dispatch is `_start_request`, from the bytes of a head to an
-- error, an exchange or a WebSocket; the limiter is any state with a check, and that of
-- echocorn/ratelimit.py in Http1.Dispatch.Limited. Http1.Drain and Http1.Reader are the request side
-- behind the head: the body, its end, and the next request, with the turns of the reader, the
-- application, the writer and the peer as events in any order; the fuel of the drain loop is one more
-- than the bytes in the buffer, of which each turn takes one.
--
-- WebSocket models echocorn/websocket.py up to its session: WebSocket.Words (`int.to_bytes`,
-- masking), WebSocket.Text (the UTF-8 that Python decodes, `wants_websocket`, `subprotocols`),
-- WebSocket.Frame (`build_frame`, `_parse_frame`) and WebSocket.Parser (the close frame,
-- `FrameParser`, and in WebSocket.Parser.Wire the bytes of a sequence of frames; the fuel of `feed`
-- is one more than the bytes in the buffer, of which each frame takes two). A text is the bytes that
-- encode it.
--
-- Redirect models echocorn/redirect.py: Redirect.Location (`build_location`), Redirect.Reply (`_handle`,
-- as the answer to one head) and Redirect.Protocol (`RedirectProtocol`, whose steps are the callbacks,
-- the timer and the shutdown hooks in any order).
--
-- Config models echocorn/config.py: Config (`ServerConfig` and its defaults), Config.Checks
-- (`__post_init__`), Config.Rules and Config.Valid (what it vouches for), Config.Schema (`SCHEMA`,
-- `_check`), Config.Target (`proxy_target`) and Config.Load (`_settings_from_mapping`), from a parsed
-- TOML document on. Integers are Python's; of a float only the sign and what it is matter.
-- `ipaddress` and the resolution of paths are parameters.
--
-- Base holds what they share: bytes as lists of code points with Python's methods (Base.Bytes), the
-- regular expressions as functions (Base.Pattern: Python's dollar sign also matches before a final
-- line feed), numerals (Base.Numerals), Boolean tests and lists on the native numbers.
--
-- Not modelled: the rest of the connection handlers, the sessions, HTTP/2 (the frames are those of the h2 package),
-- the proxy, and the server's sockets, processes and signals.
pub mod Base
pub mod Config
pub mod Dict
pub mod Http1
pub mod RateLimit
pub mod Redirect
pub mod Utils
pub mod WebSocket

-- ===== src/Http/Session/Run.antt =====
-- The runs of a connection (src/httpd/HttpDaemon.cpp): its coroutine takes events, and between two of
-- them the other coroutines of the thread may act.
use v_ubercool.Base.{ℕ, Bool, true, false, ◌&&◌, Option, none, [], Bytes}
use v_ubercool.Http.Config.{HttpConfig}
use v_ubercool.Http.Request.{HttpRequest, no_request}
use v_ubercool.Http.Reply.{Encoding}
use v_ubercool.Http.Session.{reading, Connection, Server, World, Event, resume}
use v_ubercool.Http.Session.Buffer.{IsParser, IsSound, IsDelivery, empty-IsWaiting, resume-IsSound}

-- A connection that has been accepted; `date` is the thread's.
abbrev pub new_connection : ℕ → Bytes → Connection
new_connection key date = record {
  key = key;
  phase = reading;
  socket_open = true;
  received = [];
  current_req = no_request;
  current_reply = record {
    close_on_reply = false;
    buffers = [];
    compression_type = none;
    out = [];
    now = 0;
    bytes_in_reply = 0;
    date = date;
  };
}

-- What the others may do: they change what is shared, the date included, and `KillConnection` closes
-- the socket.
unfoldable pub interfere : Server → Bool → Bytes → World → World
interfere server is_open date w = record w {
  conn = record w.conn {
    socket_open = w.conn.socket_open && is_open;
    current_reply = record w.conn.current_reply { date = date };
  };
  server = server;
}

module _ (parse : Bytes → Option HttpRequest) (to_number : Bytes → Option ℕ)
    (is_regular_file : Bytes → Bool) (content : Bytes → Bytes) (compress : Encoding → Bytes → Bytes)
    (format_date : ℕ → Bytes) (config : HttpConfig) where
  -- What a connection can come to.
  pub data Reachable : World → Type 0 where
    accepted :
        (key : ℕ) (date : Bytes) (server : Server)
        → Reachable (record { conn = new_connection key date; server = server })
    resumed :
        {w : World} (e : Event)
        → Reachable w
        → IsDelivery parse to_number is_regular_file content compress format_date config
            w.conn.received e
        → Reachable (resume parse to_number is_regular_file content compress format_date config e w)
    meanwhile :
        {w : World} (server : Server) (is_open : Bool) (date : Bytes)
        → Reachable w
        → Reachable (interfere server is_open date w)

  interfere-IsSound :
      (server : Server) (is_open : Bool) (date : Bytes) (w : World)
      → IsSound parse to_number is_regular_file content compress format_date config w
      → IsSound parse to_number is_regular_file content compress format_date config
          (interfere server is_open date w)
  unfolding interfere IsSound
  interfere-IsSound server is_open date w h = h

  accepted-IsSound :
      (key : ℕ) (date : Bytes) (server : Server)
      → IsParser parse
      → IsSound parse to_number is_regular_file content compress format_date config
          (record { conn = new_connection key date; server = server })
  unfolding IsSound
  accepted-IsSound key date server c =
      empty-IsWaiting parse to_number is_regular_file content compress format_date config c

  -- Whatever a connection receives, and whatever the other connections do, its buffer never holds
  -- more than its 8192 octets. While it waits for octets there is room for two or more, the parser
  -- accepts nothing that is in the buffer, and no end of a header is in it. While a reply is written
  -- the request stands at the buffer's head with all its octets. The parser must take octets, and none
  -- that it was not given.
  pub Reachable-IsSound :
      (w : World)
      → IsParser parse
      → Reachable w
      → IsSound parse to_number is_regular_file content compress format_date config w
  Reachable-IsSound w c (accepted key date server) = accepted-IsSound key date server c
  Reachable-IsSound w c (resumed {w = v} e r d) =
      resume-IsSound parse to_number is_regular_file content compress format_date config e v c d
        (Reachable-IsSound v c r)
  Reachable-IsSound w c (meanwhile {w = v} server is_open date r) =
      interfere-IsSound server is_open date v (Reachable-IsSound v c r)

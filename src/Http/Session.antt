-- ===== src/Http/Session.antt =====
-- `Connection::ProcessRequests` and `ParseRequest` of src/httpd/HttpDaemon.cpp: the coroutine of one
-- connection, from one wait to the next. What ends a wait is an event. The parser of requests, the
-- file system, the compressors, the date and boost::lexical_cast are parameters.
pub mod Serving
pub mod Buffer
pub mod Pending
pub mod Progress
pub mod Run
pub mod Refusals
pub mod Safe
use v_ubercool.Base.{
  ℕ, zero, suc, ◌+◌, ◌-◌, Bool, true, false, not, ◌&&◌, ◌||◌, Option, none, some, List, [], ◌∷◌,
  ◌++◌, Bytes, codes, length, get_elem?, set, drop, ltb, leb, ◌==◌, if◌then◌else◌,
}
use v_ubercool.Stats.{Statistics, plus, State, sucess, ignore, fail, bad, unset, count_request}
use v_ubercool.Http.Config.{HttpConfig}
use v_ubercool.Http.Request.{HttpRequest}
use v_ubercool.Http.Vhosts.{PackedHostData, Resolved, site, unknown_host, redirect, get_host}
use v_ubercool.Http.Hosts.{Served, body, not_found, not_allowed, process_request}
use v_ubercool.Http.Reply.{Encoding, CurrentReply, prepare, reply, reply_with_error}
use v_ubercool.Http.Connections.{ConnectionMgr, set_end_of_life, close_connection}

-- `request_buffer_`.
abbrev pub buffer_size : ℕ
buffer_size = 8192

-- Where the coroutine waits. `writing` holds what is to be counted for the request being answered,
-- and `writing_bad` is the wait of the branch for a bad request. `crashed` is behaviour that the
-- language leaves undefined: a parser that has consumed more than it was given, or a host template
-- without a factory.
pub data Phase : Type 0 where
  reading : Phase
  writing : State → Phase
  writing_bad closed crashed : Phase

-- The connection: `received` is the part of the buffer in use, of `request_bytes` octets, and
-- `socket_open` is `socket_.is_open()`.
pub record Connection : Type 0 where
  pub key : ℕ
  pub phase : Phase
  pub socket_open : Bool
  pub received : Bytes
  pub current_req : HttpRequest
  pub current_reply : CurrentReply

-- What the connections of a thread share.
pub record Server : Type 0 where
  pub mgr : ConnectionMgr
  pub hosts : List PackedHostData

pub record World : Type 0 where
  pub conn : Connection
  pub server : Server

-- What ends a wait, with the time at which it does.
pub data Event : Type 0 where
  received : ℕ → Bytes → Event
  written : ℕ → Event
  failed : ℕ → Event

-- `ParseResult`.
pub data ParseResult : Type 0 where
  parsed : HttpRequest → ParseResult
  incomplete bad_request : ParseResult

-- `my_buffer.find("\r\n\r\n")`.
pub starts_with : Bytes → Bytes → Bool
starts_with [] text = true
starts_with (p ∷ ps) [] = false
starts_with (p ∷ ps) (c ∷ cs) = p == c && starts_with ps cs

pub contains_text : Bytes → Bytes → Bool
unfolding starts_with
contains_text p [] = starts_with p []
contains_text p (c ∷ cs) = starts_with p (c ∷ cs) || contains_text p cs

unparsed : Bytes → ParseResult
unfolding contains_text
unparsed buffer =
    if leb (buffer_size - 1) (length buffer)
    then bad_request
    else if contains_text (13 ∷ 10 ∷ 13 ∷ 10 ∷ []) buffer
    then bad_request
    else incomplete

-- The statistics of the thread.
on_stats : (Statistics → Statistics) → World → World
on_stats f w = record w {
  server = record w.server { mgr = record w.server.mgr { stats = f w.server.mgr.stats } };
}

-- The end of the coroutine: `Close` by the destructor of `my_cleaner`.
pub finish : World → World
finish w = record w {
  conn = record w.conn { phase = closed; socket_open = false };
  server = record w.server { mgr = close_connection w.conn.key w.server.mgr };
}

-- The destructor of `request_stats`, at the end of a round, and `++` of the counters.
end_round : State → World → World
unfolding on_stats
end_round state w = on_stats (count_request state) w

-- The loop's test.
pub while_open : World → World → World
unfolding finish
while_open stay w = if w.conn.socket_open then stay else finish w

pub to_phase : Phase → World → World
to_phase phase w = record w { conn = record w.conn { phase = phase } }

pub await_more : World → World
unfolding while_open to_phase
await_more w = while_open (to_phase reading w) w

-- The round's end with `rest` left in the buffer.
end_request : State → Bytes → World → World
unfolding end_round
end_request state rest w = end_round state (record w { conn = record w.conn { received = rest } })

-- `thd_http_stats_.bytes_sent += current_reply_.GetBytes()`.
count_reply : World → World
unfolding on_stats
count_reply w =
    on_stats (λ s. record s { bytes_sent = plus s.bytes_sent w.conn.current_reply.bytes_in_reply })
      w

-- What `async_read_some` has put behind the octets in use.
take_octets : Bytes → World → World
unfolding on_stats
take_octets octets w =
    on_stats (λ s. record s { bytes_received = plus s.bytes_received (length octets) })
      (record w { conn = record w.conn { received = w.conn.received ++ octets } })

module _ (parse : Bytes → Option HttpRequest) (to_number : Bytes → Option ℕ)
    (is_regular_file : Bytes → Bool) (content : Bytes → Bytes) (compress : Encoding → Bytes → Bytes)
    (format_date : ℕ → Bytes) (config : HttpConfig) where
  pub parse_request : Bytes → ParseResult
  unfolding unparsed
  parse_request buffer = elim (parse buffer) [ some req ↦ parsed req | none ↦ unparsed buffer ]

  -- The reply to a request that a host has served, and what is counted for it.
  reply_to_served : ℕ → HttpRequest → Served → CurrentReply → CurrentReply × State
  reply_to_served now req (body text) r =
      (reply compress format_date 200 req (record r { out = r.out ++ text }), sucess)
  reply_to_served now req not_found r =
      (reply_with_error compress format_date now 404 (codes "Not Found") req r, unset)
  reply_to_served now req not_allowed r =
      (reply_with_error compress format_date now 405 (codes "Method not allowed") req r, unset)

  -- `SetEndOfLife`, if there is a time-out, and the wait for the write.
  prolong : ConnectionMgr → ℕ → CurrentReply → ConnectionMgr
  prolong m key r =
      if config.connection_timeout == 0
      then m
      else set_end_of_life key (r.now + config.connection_timeout) m

  start_writing : CurrentReply × State → World → World
  unfolding prolong
  start_writing (r, state) w = record w {
    conn = record w.conn { phase = writing state; current_reply = r };
    server = record w.server { mgr = prolong w.server.mgr w.conn.key r };
  }

  -- The case `OK`, at the host `ix`.
  pub serve_host : ℕ → ℕ → World → Option (PackedHostData × Served) → World
  unfolding start_writing reply_to_served to_phase
  serve_host now ix w none = to_phase crashed w
  serve_host now ix w (some (d, served)) =
      let req = w.conn.current_req in
      start_writing (reply_to_served now req served (prepare now req config w.conn.current_reply))
        (record w { server = record w.server { hosts = set w.server.hosts ix d } })

  serve_site : ℕ → ℕ → World → Option PackedHostData → World
  unfolding serve_host to_phase
  serve_site now ix w none = to_phase crashed w
  serve_site now ix w (some d) =
      serve_host now ix w (process_request is_regular_file content ix w.conn.current_req d)

  -- The case `OK`, for a host that is found; the exceptions of `GetHost` end the connection.
  pub serve_resolved : ℕ → World → Resolved → World
  unfolding serve_site finish end_round
  serve_resolved now w (site ix) = serve_site now ix w (get_elem? w.server.hosts ix)
  serve_resolved now w unknown_host = finish (end_round unset w)
  serve_resolved now w (redirect url) = finish (end_round unset w)

  -- A round of the loop from `ParseRequest` on.
  pub on_result : ℕ → World → ParseResult → World
  unfolding serve_resolved await_more end_round
  on_result now w (parsed req) =
      serve_resolved now (record w { conn = record w.conn { current_req = req } })
        (get_host to_number config req.host)
  on_result now w bad_request = record w {
    conn = record w.conn {
      phase = writing_bad;
      current_reply =
          reply_with_error compress format_date now 400 (codes "Bad Request!") w.conn.current_req
            w.conn.current_reply;
    };
  }
  on_result now w incomplete = await_more (end_round ignore w)

  round : ℕ → World → World
  unfolding on_result parse_request
  round now w = on_result now w (parse_request w.conn.received)

  parse_again : ℕ → World → World
  unfolding round while_open
  parse_again now w = while_open (round now w) w

  -- Behind a successful write: the request is taken out of the buffer, and the rest is parsed if
  -- there is any.
  next_request : ℕ → State → World → World
  unfolding parse_again await_more end_request to_phase
  next_request now state w =
      if length w.conn.received == w.conn.current_req.request_length
      then await_more (end_request state [] w)
      else if ltb (length w.conn.received) w.conn.current_req.request_length
      then to_phase crashed w
      else parse_again now
          (end_request state (drop w.conn.current_req.request_length w.conn.received) w)

  after_write : ℕ → State → World → World
  unfolding next_request finish end_round count_reply
  after_write now state w =
      if not w.conn.socket_open || w.conn.current_reply.close_on_reply
      then finish (end_round state (count_reply w))
      else next_request now state (count_reply w)

  after_read : ℕ → Bytes → World → World
  unfolding round take_octets
  after_read now octets w = round now (take_octets octets w)

  -- An event that the phase does not wait for changes nothing.
  step : Event → Phase → World → World
  unfolding after_write after_read finish end_round
  step (received now octets) reading w = after_read now octets w
  step (failed now) reading w = finish w
  step (written now) (writing state) w = after_write now state w
  step (failed now) (writing state) w = finish (end_round state w)
  step (written now) writing_bad w = finish (end_round bad w)
  step (failed now) writing_bad w = finish (end_round bad w)
  step e phase w = w

  -- The coroutine's answer to an event.
  unfoldable pub resume : Event → World → World
  unfolding step
  resume e w = step e w.conn.phase w

-- ===== src/Http/Tests.antt =====
-- Runs of the request parser and of a connection of the HTTP server on small inputs.
use v_ubercool.Base.{
  ℕ, ◌≡◌, refl, ap, Bool, true, false, Option, none, some, List, [], ◌∷◌, ◌++◌, Bytes, codes,
  length, number_from, arith, if◌then◌else◌,
}
use v_ubercool.Stats.{State}
use v_ubercool.Http.Config.{HttpConfig, default_config}
use v_ubercool.Http.Request.{Version, Method, get, HttpRequest, no_request}
use v_ubercool.Http.Vhosts.{get_host}
use v_ubercool.Http.Hosts.{not_found, process_request}
use v_ubercool.Http.Connections.Limits.{start}
use v_ubercool.Http.Reply.{Encoding, gzip, CurrentReply, encoded, do_reply, is_head}
use v_ubercool.Http.Reply.Framing.{
  IsLine, read_message, message, status_line, server_line, encoding_fields, connection_fields,
  flatten, do_reply_framing,
}
use v_ubercool.Http.Session.Refusals.{Ends, IsOver, serve_host-IsOver}
use v_ubercool.Http.Session.{
  on_result, bad_request, serve_host, Server, World, writing, received, written, resume,
}
use v_ubercool.Http.Session.Buffer.{IsParser, IsSound, IsDelivery}
use v_ubercool.Http.Session.Run.{new_connection, Reachable, accepted, resumed, Reachable-IsSound}
use v_ubercool.Http.Session.Pending.{IsSettled}
use v_ubercool.Http.Session.Progress.{Turn, take_replies, take_replies-IsSettled}
use v_ubercool.Http.Session.Safe.{HasFactory, IsHosted, IsDefined, resume-IsDefined}
use v_ubercool.Http.Parser.{
  Token, crlf, column, h_any, ws, word, encoding_item, header, token, one_qvalue, one_comma, star,
  parse_http_request,
}
use v_ubercool.Http.Parser.{start as start_rule}
use v_ubercool.Http.Parser.Rules.{Stops}
use v_ubercool.Http.Parser.Length.{IsLexer, repetitions-Stops, parse_http_request-IsParser}
use v_ubercool.Http.Parser.RoundTrip.Fields.{
  Coding, host, dnt, encodings, any, line_end, note_fields,
}
use v_ubercool.Http.Parser.RoundTrip.Message.{
  Message, open_tokens, message_tokens, first_line, start-message_tokens, start-empty_value,
}

abbrev hello : Message
hello = record {
  method = get;
  target = codes "/";
  is_1_0 = false;
  fields =
      host 1 (codes "old") 0
      ∷ encodings (record { blanks = 1; coding = Coding.gzip; qvalues = 1; commas = 1 } ∷ []) 0
      ∷ any 1 (codes "a") ((2, codes "b") ∷ []) 1
      ∷ dnt 0 true 0
      ∷ host 1 (codes "7.x") 2
      ∷ [];
}

start-message_tokens_at_input :
    start_rule (message_tokens hello (h_any ∷ [])) no_request
    ≡ (some (h_any ∷ []), note_fields hello.fields (first_line hello))
start-message_tokens_at_input = start-message_tokens hello (h_any ∷ [])

hello_noted : note_fields hello.fields (first_line hello) ≡ record no_request {
  method = get;
  version = Version.http_1_1;
  uri = codes "/";
  host = codes "7.x";
  do_not_track = true;
  accept_encoding_gzip = true;
}
hello_noted = refl

start-empty_value_example :
    start_rule (open_tokens hello (h_any ∷ column ∷ line_end 1 (crlf ∷ []))) no_request
    ≡ (none, note_fields hello.fields (first_line hello))
start-empty_value_example = start-empty_value hello 1 (crlf ∷ [])

repetitions-Stops_example :
    Stops ws (star ws (message_tokens hello []) no_request)
    × Stops (token one_qvalue) (star (token one_qvalue) (message_tokens hello []) no_request)
    × Stops (token one_comma) (star (token one_comma) (message_tokens hello []) no_request)
    × Stops encoding_item (star encoding_item (message_tokens hello []) no_request)
    × Stops word (star word (message_tokens hello []) no_request)
    × Stops header (star header (message_tokens hello []) no_request)
repetitions-Stops_example = repetitions-Stops (message_tokens hello []) no_request

-- A lexer that takes every text for the same request.
abbrev tokenize : Bytes → List Token
tokenize [] = []
tokenize (c ∷ cs) = message_tokens hello []

abbrev scanned : Bytes → ℕ → ℕ
scanned buffer n = length buffer

tokenize-IsLexer : IsLexer tokenize scanned
unfolding IsLexer
tokenize-IsLexer [] n above below = absurd (omega (arith, above, below))
tokenize-IsLexer (c ∷ cs) n above below = (omega arith, omega arith)

parse_http_request-IsParser_example : IsParser (parse_http_request tokenize scanned)
parse_http_request-IsParser_example = parse_http_request-IsParser tokenize scanned tokenize-IsLexer

-- A parser for which every octet is a request for the root page.
abbrev parse : Bytes → Option HttpRequest
parse [] = none
parse (c ∷ cs) = some (record no_request {
  method = get;
  version = Version.http_1_1;
  uri = codes "/";
  host = codes "0.x";
  request_length = 1;
})

parse-IsParser : IsParser parse
unfolding IsParser
parse-IsParser [] req h e = cc
parse-IsParser (c ∷ cs) req h e =
    let size : 1 ≡ req.request_length = ground arith in (omega (arith, size), omega (arith, size))

-- Every text is the number 0, no file exists, and compression changes nothing.
abbrev first_site : Bytes → Option ℕ
first_site text = some 0

abbrev no_file : Bytes → Bool
no_file path = false

abbrev nothing : Bytes → Bytes
nothing path = []

abbrev same : Encoding → Bytes → Bytes
same e text = text

abbrev noon : ℕ → Bytes
noon now = codes "noon"

abbrev one_site : HttpConfig
one_site = record default_config { num_sites = 1 }

abbrev server : Server
server = record { mgr = start; hosts = record { hostbits = 0; host_template = 0 } ∷ [] }

abbrev opened : World
opened = record { conn = new_connection 1 (codes "noon"); server = server }

abbrev asked : World
asked = resume parse first_site no_file nothing same noon one_site (received 5 (1 ∷ 2 ∷ [])) opened

opened-Reachable : Reachable parse first_site no_file nothing same noon one_site opened
opened-Reachable = accepted 1 (codes "noon") server

asked-Reachable : Reachable parse first_site no_file nothing same noon one_site asked
unfolding IsDelivery
asked-Reachable = resumed (received 5 (1 ∷ 2 ∷ [])) opened-Reachable (omega arith)

Reachable-IsSound_example : IsSound parse first_site no_file nothing same noon one_site asked
Reachable-IsSound_example =
    Reachable-IsSound parse first_site no_file nothing same noon one_site asked parse-IsParser
      asked-Reachable

-- A reply to the request is on its way.
asked_received : asked.conn.received ≡ 1 ∷ 2 ∷ []
unfolding resume get_host process_request
asked_received = refl

asked_phase : (state : State) × (asked.conn.phase ≡ writing state)
unfolding resume get_host process_request
asked_phase = (_, refl)

abbrev turn : Turn
turn = record { server = server; is_open = true; date = codes "noon"; now = 6 }

take_replies-IsSettled_example :
    let w' =
      take_replies parse first_site no_file nothing same noon one_site
        (turn ∷ turn ∷ turn ∷ [])
        asked in
    IsSettled w'.conn.phase
take_replies-IsSettled_example =
    take_replies-IsSettled parse first_site no_file nothing same noon one_site asked
      (turn ∷ turn ∷ turn ∷ []) parse-IsParser asked-Reachable
      (omega (arith, ap length asked_received))

opened-IsHosted : IsHosted one_site opened.server.hosts
unfolding IsHosted HasFactory
opened-IsHosted = (refl, (omega arith, tt))

opened-IsDefined : IsDefined opened.conn.phase
unfolding IsDefined
opened-IsDefined = tt

asked-IsDefined : IsHosted one_site asked.server.hosts × IsDefined asked.conn.phase
asked-IsDefined =
    resume-IsDefined parse first_site no_file nothing same noon one_site (received 5 (1 ∷ 2 ∷ []))
      opened parse-IsParser opened-Reachable opened-IsHosted opened-IsDefined

resume-IsDefined_example :
    let w' = resume parse first_site no_file nothing same noon one_site (written 6) asked in
    IsHosted one_site w'.server.hosts × IsDefined w'.conn.phase
resume-IsDefined_example =
    resume-IsDefined parse first_site no_file nothing same noon one_site (written 6) asked
      parse-IsParser asked-Reachable asked-IsDefined.0 asked-IsDefined.1

-- A page of two octets, compressed.
abbrev page : CurrentReply
page = record {
  close_on_reply = false;
  buffers = [];
  compression_type = some gzip;
  out = codes "ab";
  now = 5;
  bytes_in_reply = 0;
  date = codes "noon";
}

noon-IsLine : IsLine (codes "noon")
noon-IsLine = ((omega arith, (omega arith, (omega arith, (omega arith, tt)))), λ e. cc)

do_reply_framing_example :
    let r' = do_reply same noon 200 (codes "OK") no_request page in
    let body = encoded same noon page.compression_type page.out in
    (digits : Bytes) × (read_message 9 (flatten r'.buffers)
      ≡ message
          (status_line Version.unknown 200 (codes "OK")
            ∷ r'.date
            ∷ server_line
            ∷ (codes "Content-Length: " ++ digits)
            ∷ codes "Content-Type: text/html; charset=utf-8"
            ∷ encoding_fields (some gzip) (connection_fields false))
          (if is_head Method.unknown then [] else body))
    × (number_from 0 digits ≡ length body)
    × (r'.bytes_in_reply ≡ length (flatten r'.buffers))
do_reply_framing_example =
    do_reply_framing same noon 200 (codes "OK") no_request page ((omega arith, (omega arith, tt)))
      noon-IsLine noon-IsLine refl

serve_host-IsOver_example :
    IsOver (
      resume parse first_site no_file nothing same noon one_site
        (written 6)
        (on_result parse first_site no_file nothing same noon one_site 5 asked bad_request))
    × IsOver (
        resume parse first_site no_file nothing same noon one_site (written 6) (
          serve_host parse first_site no_file nothing same noon one_site 5 0 asked
            (some (record { hostbits = 0; host_template = 1 }, not_found))))
unfolding Ends
serve_host-IsOver_example =
    serve_host-IsOver parse first_site no_file nothing same noon one_site 5 6 0 (written 6) asked
      (record { hostbits = 0; host_template = 1 }) not_found tt tt

-- ===== src/Dns/Daemon.antt =====
-- `ProcesssQuerey`, `ProcessQuestions` and the body of the receive loop of src/dnsd/DnsDaemon.cpp:
-- from a datagram to the one that is sent back. The sockets are not modelled.
pub mod Replies
pub mod Identity
pub mod Usable
use v_ubercool.Base.{
  ℕ, zero, suc, ◌+◌, Bool, true, false, Option, none, some, List, [], ◌∷◌, Bytes, length, resize,
  ◌==◌, if◌then◌else◌,
}
use v_ubercool.Stats.{State, unset, bad}
use v_ubercool.Dns.Outcome.{
  Error, no_labels, illegal_label, illegal_pointer, invalid_query, refused, unknown_domain,
  unknown_sub_domain, out_of_bounds, out_of_fuel, endless_loop, Outcome, ok, err, ◌>>=◌,
}
use v_ubercool.Dns.Header.{
  MessageHeader, Rcode, format_error, server_failure, name_error, not_implemented, header_size,
  read_header, write_header, get_qr, get_opcode,
}
use v_ubercool.Dns.Header.{refused as refused_code}
use v_ubercool.Dns.Reply.{Counts, create_error_reply, answer_header}
use v_ubercool.Dns.Labels.{ByteOrder}
use v_ubercool.Dns.Question.{Copied, copy_questions}
use v_ubercool.Dns.Zones.{ZoneMgr}
use v_ubercool.Dns.Sections.{Session, Progress, went, cut, failed, process_sections}

-- The end of `ProcesssQuerey`: the reply buffer, the state of the request and the number added to
-- `unknown_names`; or an exception, with that number.
pub data Handled : Type 0 where
  replied : Bytes → State → ℕ → Handled
  thrown : Error → ℕ → Handled

-- What is known when the questions have been copied.
unfoldable first_session : Copied → Session
first_session c = record {
  writer = record { buffer = c.reply; points = [] };
  authorative = true;
  counts = record { questions = length c.questions; answers = 0; ns = 0; opt = 0 };
  authorative_zones = [];
  ns_zones = [];
}

-- The reply's header is written when the sections are complete or cut short.
close_reply : Bool → MessageHeader → Session → Bytes
close_reply truncated header s =
    write_header (answer_header truncated s.authorative s.counts header) s.writer.buffer

finish_reply : MessageHeader → Progress → Outcome Bytes
unfolding close_reply
finish_reply header (went s) = ok (close_reply false header s)
finish_reply header (cut s) = ok (close_reply true header s)
finish_reply header (failed e) = err e

-- The exception handlers of `ProcesssQuerey`. `UnknownDomain` is thrown on. A read outside the
-- buffer, a lack of fuel and a call without end are not exceptions, and end the run. `CreateErrorReply` overwrites all that
-- it keeps of the reply buffer, which is left out here.
answer_exception : MessageHeader → Error → Handled
answer_exception header invalid_query = replied (create_error_reply format_error header []) bad 0
answer_exception header unknown_domain = thrown unknown_domain 1
answer_exception header unknown_sub_domain =
    replied (create_error_reply name_error header []) unset 1
answer_exception header refused = replied (create_error_reply refused_code header []) unset 0
answer_exception header no_labels = replied (create_error_reply format_error header []) bad 0
answer_exception header illegal_label = replied (create_error_reply format_error header []) bad 0
answer_exception header illegal_pointer = replied (create_error_reply format_error header []) bad 0
answer_exception header out_of_bounds = thrown out_of_bounds 0
answer_exception header out_of_fuel = thrown out_of_fuel 0
answer_exception header endless_loop = thrown endless_loop 0
answer_exception header e = replied (create_error_reply server_failure header []) unset 0

answer_outcome : MessageHeader → Outcome Bytes → Handled
unfolding answer_exception
answer_outcome header (ok reply) = replied reply unset 0
answer_outcome header (err e) = answer_exception header e

-- The datagram that the receive loop sends, if it sends one: the reply buffer is empty when the
-- header cannot be read, and nothing is sent for an unknown domain.
unfoldable pub sent : Handled → Option Bytes
sent (replied [] state n) = none
sent (replied (b ∷ bs) state n) = some (b ∷ bs)
sent (thrown e n) = none

module _ (matches : Bytes → Bool) (order : ByteOrder) (iequals : Bytes → Bytes → Bool)
    (m : ZoneMgr) where
  -- The query buffer, and the number of octets received, which may be fewer.
  unfoldable pub process_questions : Bytes → ℕ → MessageHeader → Outcome Bytes
  unfolding first_session finish_reply
  process_questions query size header =
      copy_questions matches order query header.qdcount size (resize header_size 0 []) >>= λ c.
      finish_reply header (process_sections iequals m query c.questions (first_session c))

  -- Behind the header.
  process_message : Bytes → ℕ → MessageHeader → Handled
  unfolding process_questions answer_outcome
  process_message query size header =
      if get_qr header
      then answer_exception header invalid_query
      else if get_opcode header == 0
      then answer_outcome header (process_questions query size header)
      else replied (create_error_reply not_implemented header []) unset 0

  unfoldable pub process_query : Bytes → ℕ → Handled
  unfolding process_message
  process_query query size = elim (read_header query size) [
    | err e ↦ thrown e 0
    | ok header ↦ process_message query size header
  ]

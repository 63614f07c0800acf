-- ===== src/Dns/Receive/Tests.antt =====
-- Runs of the receive loop of src/dnsd/DnsDaemon.cpp.
use v_ubercool.Base.{
  ◌%◌, ◌^◌, ◌≡◌, refl, Bool, true, some, List, [], ◌∷◌, ◌++◌, replicate, Bytes, equal,
}
use v_ubercool.Base.Tree.{◌>>=◌}
use v_ubercool.Stats.{reset, unset, count_request, dns}
use v_ubercool.Stats.Totals.{sum_of}
use v_ubercool.Dns.Header.{
  reset_all_counters, set_rcode, set_qr, read_header, get_qr, get_opcode, word_at, write_header,
}
use v_ubercool.Dns.Reply.{create_error_reply, error_header}
use v_ubercool.Dns.Labels.{little, label_header}
use v_ubercool.Dns.Question.{copy_questions, read_question}
use v_ubercool.Dns.Zones.{ZoneMgr}
use v_ubercool.Dns.Daemon.{replied, process_questions, process_query}
use v_ubercool.Dns.Receive.{
  receiving, Receiver, start_receiving, Event, received, was_sent, reported, run,
}
use v_ubercool.Dns.Receive.Steps.{tally, datagrams, replies, octets, requests}
use v_ubercool.Dns.Receive.Accounts.{run-accounts, run-no_bad}

abbrev any_text : Bytes → Bool
any_text text = true

abbrev no_zones : ZoneMgr
no_zones = record { objects = []; zones = [] }

-- A header that says that it is a reply, and nothing else.
abbrev not_a_query : Bytes
not_a_query = 0 ∷ 7 ∷ 128 ∷ 0 ∷ 0 ∷ 0 ∷ 0 ∷ 0 ∷ 0 ∷ 0 ∷ 0 ∷ 0 ∷ []

-- It is answered with a format error, and a datagram without octets is not answered.
abbrev events : List Event
events = received not_a_query ∷ was_sent ∷ reported ∷ received [] ∷ []

abbrev receiver : Receiver
receiver = record {
  phase = receiving;
  query_buffer = not_a_query ++ replicate 500 0;
  stats = record reset { failed_requests = 1 };
  num_incoming_connections = 2;
  reports = (dns, record reset { ok_requests = 1; bytes_received = 12; bytes_sent = 12 }) ∷ [];
}

run-events : run any_text little equal no_zones events (start_receiving 0) ≡ some receiver
unfolding run process_query start_receiving reset ◌>>=◌ read_header get_qr word_at
    create_error_reply write_header count_request
run-events = refl

-- A query cut off behind the first label of its name: the octet read behind it is that of the buffer,
-- and the query is answered with a failure of the server.
abbrev cut_off : Bytes
cut_off = 0 ∷ 7 ∷ 0 ∷ 0 ∷ 0 ∷ 1 ∷ 0 ∷ 0 ∷ 0 ∷ 0 ∷ 0 ∷ 0 ∷ 1 ∷ b'w' ∷ []

answered_cut_off :
    process_query any_text little equal no_zones (cut_off ++ replicate 498 0) 14
    ≡ replied (0 ∷ 7 ∷ 128 ∷ 2 ∷ 0 ∷ 0 ∷ 0 ∷ 0 ∷ 0 ∷ 0 ∷ 0 ∷ 0 ∷ []) unset 0
unfolding process_query read_header get_qr get_opcode word_at create_error_reply write_header
    process_questions copy_questions label_header read_question error_header reset_all_counters
    set_rcode set_qr
answered_cut_off = refl

run-accounts_example :
    (tally (λ s. s.ok_requests) receiver % 2 ^ 64 ≡ replies events % 2 ^ 64)
    × (requests receiver % 2 ^ 64 ≡ datagrams events % 2 ^ 64)
    × (tally (λ s. s.bytes_received) receiver % 2 ^ 64 ≡ octets events % 2 ^ 64)
run-accounts_example = run-accounts any_text little equal no_zones events 0 run-events

run-no_bad_example :
    (receiver.stats.bad_requests ≡ 0) × (sum_of dns (λ s. s.bad_requests) receiver.reports ≡ 0)
run-no_bad_example = run-no_bad any_text little equal no_zones events 0 tt run-events

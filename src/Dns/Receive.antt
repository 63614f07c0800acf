-- ===== src/Dns/Receive.antt =====
-- The receive loop of `StartReceivingUdpAt` and the housekeeping of src/dnsd/DnsDaemon.cpp, for one
-- endpoint: from one wait of its coroutine to the next. What ends a wait is an event.
pub mod Steps
pub mod Accounts
mod Tests
use v_ubercool.Base.{
  ℕ, zero, suc, ◌+◌, ◌%◌, ◌^◌, Bool, Option, none, some, List, [], ◌∷◌, ◌++◌, Bytes, length, take,
  drop, replicate,
}
use v_ubercool.Base.Tree.{◌>>=◌}
use v_ubercool.Stats.{
  Statistics, plus, reset, StatType, dns, State, sucess, ignore, unset, count_request,
}
use v_ubercool.Dns.Outcome.{Error, out_of_bounds, out_of_fuel, endless_loop}
use v_ubercool.Dns.Labels.{ByteOrder}
use v_ubercool.Dns.Zones.{ZoneMgr}
use v_ubercool.Dns.Daemon.{Handled, replied, thrown, process_query}

-- `max_query_buffer_`: what does not fit into it is lost.
abbrev pub max_query_buffer : ℕ
max_query_buffer = 512

-- Where the coroutine waits: for a datagram, or for the end of a send, with what is to be counted. No
-- `error_code` is given to the waits, so that an error is an exception, which ends the coroutine.
-- `crashed` is behaviour that the language leaves undefined, and `hung` is inside a call that does not return.
pub data Phase : Type 0 where
  receiving : Phase
  sending : Bytes → State → Phase
  stopped crashed hung : Phase

-- The coroutine with its query buffer, of `max_query_buffer_` octets, the counters of its thread, `num_incoming_connections_`, and what `AddStat` has
-- given to the statistics' manager.
pub record Receiver : Type 0 where
  pub phase : Phase
  pub query_buffer : Bytes
  pub stats : Statistics
  pub num_incoming_connections : ℕ
  pub reports : List (StatType × Statistics)

-- At the start; the number of connections is not set by the source.
unfoldable pub start_receiving : ℕ → Receiver
start_receiving n = record {
  phase = receiving;
  query_buffer = replicate max_query_buffer 0;
  stats = reset;
  num_incoming_connections = n;
  reports = [];
}

-- The destructor of `request_stats`, at the end of a round.
end_round : State → Phase → Receiver → Receiver
end_round state phase r = record r { phase = phase; stats = count_request state r.stats }

count_unknown : ℕ → Receiver → Receiver
count_unknown n r = record r {
  stats = record r.stats { unknown_names = plus r.stats.unknown_names n };
}

-- What is counted then: nothing before a call has returned.
pub state_after : Error → State
state_after endless_loop = ignore
state_after e = unset

-- `catch(const UnknownDomain&)` and `WAR_CATCH_ERROR`: the loop goes on. A read outside the buffer and a
-- lack of fuel are no exceptions.
pub phase_after : Error → Phase
phase_after out_of_bounds = crashed
phase_after out_of_fuel = crashed
phase_after endless_loop = hung
phase_after e = receiving

-- A query has been processed.
after_query : Handled → Receiver → Receiver
unfolding end_round count_unknown phase_after state_after
after_query (replied [] state n) r = end_round state receiving (count_unknown n r)
after_query (replied (b ∷ bs) state n) r = record (count_unknown n r) {
  phase = sending (b ∷ bs) state;
}
after_query (thrown e n) r = end_round (state_after e) (phase_after e) (count_unknown n r)

-- The octets stand at the head of the buffer; those behind them are of earlier datagrams.
count_received : Bytes → Receiver → Receiver
count_received query r = record r {
  query_buffer = query ++ drop (length query) r.query_buffer;
  stats = record r.stats { bytes_received = plus r.stats.bytes_received (length query) };
  num_incoming_connections = plus r.num_incoming_connections 1;
}

-- A reply has been sent.
after_send : Bytes → Receiver → Receiver
unfolding end_round
after_send reply r =
    end_round sucess receiving
      (record r { stats = record r.stats { bytes_sent = plus r.stats.bytes_sent (length reply) } })

-- `UpdateStats`.
pub update_stats : Receiver → Receiver
update_stats r = record r { stats = reset; reports = r.reports ++ (dns, r.stats) ∷ [] }

pub data Event : Type 0 where
  received : Bytes → Event
  receive_failed was_sent send_failed reported : Event

module _ (matches : Bytes → Bool) (order : ByteOrder) (iequals : Bytes → Bytes → Bool)
    (m : ZoneMgr) where
  pub answer_query : Bytes → Receiver → Receiver
  unfolding after_query count_received
  answer_query query r =
      let r1 = count_received query r in
      after_query (process_query matches order iequals m r1.query_buffer (length query)) r1

  -- `none` is an event that cannot be in the phase. A thread that hangs has no housekeeping.
  pub step_in : Phase → Event → Receiver → Option Receiver
  unfolding answer_query after_send end_round update_stats
  step_in hung event r = none
  step_in phase reported r = some (update_stats r)
  step_in receiving (received datagram) r = some (answer_query (take max_query_buffer datagram) r)
  step_in receiving receive_failed r = some (record r { phase = stopped })
  step_in (sending reply state) was_sent r = some (after_send reply r)
  step_in (sending reply state) send_failed r = some (end_round state stopped r)
  step_in phase event r = none

  pub step : Event → Receiver → Option Receiver
  unfolding step_in
  step e r = step_in r.phase e r

  pub run : List Event → Receiver → Option Receiver
  unfolding step
  run [] r = some r
  run (e ∷ es) r = step e r >>= run es

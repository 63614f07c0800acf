-- ===== src/Dns/Receive/Steps.antt =====
-- What one event of the receive loop of src/dnsd/DnsDaemon.cpp counts.
use v_ubercool.Base.{
  ℕ, suc, ◌+◌, ◌%◌, ◌^◌, ◌≡◌, refl, ap, sym, ◌⊎◌, inl, inr, subst, Bool, List, [], ◌∷◌, Bytes,
  length, take, arith,
}
use v_ubercool.Base.Tree.{OnSome}
use v_ubercool.Stats.{
  Statistics, reset, dns, State, sucess, ignore, fail, bad, unset, count_request,
}
use v_ubercool.Stats.Totals.{sum_of, sum_of-snoc}
use v_ubercool.Dns.Outcome.{Error, out_of_bounds, out_of_fuel, endless_loop}
use v_ubercool.Dns.Labels.{ByteOrder}
use v_ubercool.Dns.Zones.{ZoneMgr}
use v_ubercool.Dns.Daemon.{Handled, replied, thrown}
use v_ubercool.Dns.Daemon.Usable.{IsFailing, IsUsable, process_query-IsUsable}
use v_ubercool.Dns.Receive.{
  Phase, receiving, sending, stopped, crashed, hung, Receiver, max_query_buffer, phase_after,
  state_after, end_round, count_unknown, after_query, count_received, after_send, update_stats,
  Event, received, receive_failed, was_sent, send_failed, reported, answer_query, step_in,
}

-- A counter of the thread, with what has been reported of it.
abbrev pub tally : (Statistics → ℕ) → Receiver → ℕ
tally field r = sum_of dns field r.reports + field r.stats

-- A request that is being answered, or never will be.
abbrev pub under_way : Phase → ℕ
under_way (sending reply state) = 1
under_way hung = 1
under_way phase = 0

-- The datagrams received, the replies sent and the octets received.
abbrev pub datagrams : List Event → ℕ
datagrams [] = 0
datagrams (received datagram ∷ es) = suc (datagrams es)
datagrams (e ∷ es) = datagrams es

abbrev pub replies : List Event → ℕ
replies [] = 0
replies (was_sent ∷ es) = suc (replies es)
replies (e ∷ es) = replies es

abbrev pub octets : List Event → ℕ
octets [] = 0
octets (received datagram ∷ es) = length (take max_query_buffer datagram) + octets es
octets (e ∷ es) = octets es

-- The requests counted, with the one that is being answered.
abbrev pub requests : Receiver → ℕ
requests r =
    tally (λ s. s.ok_requests) r
    + tally (λ s. s.failed_requests) r
    + tally (λ s. s.bad_requests) r
    + under_way r.phase

-- What the server has come to, behind some events.
pub record IsCounted (es : List Event) (start r : Receiver) : Type 0 where
  pub answered :
      tally (λ s. s.ok_requests) r % 2 ^ 64
      ≡ (tally (λ s. s.ok_requests) start + replies es) % 2 ^ 64
  pub handled : requests r % 2 ^ 64 ≡ (requests start + datagrams es) % 2 ^ 64
  pub taken :
      tally (λ s. s.bytes_received) r % 2 ^ 64
      ≡ (tally (λ s. s.bytes_received) start + octets es) % 2 ^ 64

-- A wait of the loop: what is to be counted for a request that is being answered is a failure.
abbrev pub IsWaiting : Phase → Type 0
IsWaiting (sending reply state) = IsFailing state
IsWaiting phase = Unit

-- One event.
abbrev pub Follows : Event → Receiver → Receiver → Type 0
Follows e r r' = IsCounted (e ∷ []) r r' × IsWaiting r'.phase

-- An exception is counted as a failure, unless the request does not end.
abbrev pub IsEnded : Error → Type 0
IsEnded e =
    ((state_after e ≡ unset) × (under_way (phase_after e) ≡ 0) × IsWaiting (phase_after e))
    ⊎ ((state_after e ≡ ignore) × (under_way (phase_after e) ≡ 1) × IsWaiting (phase_after e))

pub error-IsEnded : (e : Error) → IsEnded e
unfolding phase_after state_after
error-IsEnded endless_loop = inr (refl, refl, tt)
error-IsEnded out_of_bounds = inl (refl, refl, tt)
error-IsEnded out_of_fuel = inl (refl, refl, tt)
error-IsEnded e = inl (ground arith, ground arith, ground arith)

after_query-Follows :
    (datagram : Bytes) (h : Handled) (r : Receiver)
    → r.phase ≡ receiving
    → IsUsable h
    → Follows
        (received datagram)
        r
        (after_query h (count_received (take max_query_buffer datagram) r))
unfolding after_query count_received end_round count_unknown count_request
after_query-Follows datagram (replied [] state n) r at u = absurd u
after_query-Follows datagram (replied (b ∷ bs) state n) r at u = (
  record { answered = omega arith; handled = omega (arith, ap under_way at); taken = omega arith },
  u,
)
after_query-Follows datagram (thrown e n) r at u = elim (error-IsEnded e) [
  | inl (state, none_left, w) ↦ rw state (
    record {
      answered = omega arith;
      handled = omega (arith, ap under_way at, none_left);
      taken = omega arith;
    },
    w,
  )
  | inr (state, one_left, w) ↦ rw state (
    record {
      answered = omega arith;
      handled = omega (arith, ap under_way at, one_left);
      taken = omega arith;
    },
    w,
  )
]

sent_or_lost-Follows :
    (reply : Bytes) (state : State) (r : Receiver)
    → r.phase ≡ sending reply state
    → IsFailing state
    → Follows was_sent r (after_send reply r) × Follows send_failed r (end_round state stopped r)
unfolding after_send end_round count_request
sent_or_lost-Follows reply unset r at u = (
  (
    record {
      answered = omega arith;
      handled = omega (arith, ap under_way at);
      taken = omega arith;
    },
    tt,
  ),
  (
    record {
      answered = omega arith;
      handled = omega (arith, ap under_way at);
      taken = omega arith;
    },
    tt,
  ),
)
sent_or_lost-Follows reply bad r at u = (
  (
    record {
      answered = omega arith;
      handled = omega (arith, ap under_way at);
      taken = omega arith;
    },
    tt,
  ),
  (
    record {
      answered = omega arith;
      handled = omega (arith, ap under_way at);
      taken = omega arith;
    },
    tt,
  ),
)
sent_or_lost-Follows reply sucess r at u = absurd u
sent_or_lost-Follows reply ignore r at u = absurd u
sent_or_lost-Follows reply fail r at u = absurd u

update_stats-Follows : (r : Receiver) → IsWaiting r.phase → Follows reported r (update_stats r)
unfolding update_stats reset
update_stats-Follows r w =
    let ok = sum_of-snoc dns (λ s. s.ok_requests) r.reports r.stats in
    let failed = sum_of-snoc dns (λ s. s.failed_requests) r.reports r.stats in
    let bad = sum_of-snoc dns (λ s. s.bad_requests) r.reports r.stats in
    let octets = sum_of-snoc dns (λ s. s.bytes_received) r.reports r.stats in
    (
      record {
        answered = omega (arith, ok);
        handled = omega (arith, ok, failed, bad);
        taken = omega (arith, octets);
      },
      w,
    )

module _ (matches : Bytes → Bool) (order : ByteOrder) (iequals : Bytes → Bytes → Bool)
    (m : ZoneMgr) where
  pub step_in-Follows :
      (phase : Phase) (e : Event) (r : Receiver)
      → r.phase ≡ phase
      → IsWaiting phase
      → OnSome (Follows e r) (step_in matches order iequals m phase e r)
  unfolding step_in answer_query OnSome
  step_in-Follows receiving reported r at w = update_stats-Follows r (subst IsWaiting (sym at) w)
  step_in-Follows (sending reply state) reported r at w =
      update_stats-Follows r (subst IsWaiting (sym at) w)
  step_in-Follows stopped reported r at w = update_stats-Follows r (subst IsWaiting (sym at) w)
  step_in-Follows crashed reported r at w = update_stats-Follows r (subst IsWaiting (sym at) w)
  step_in-Follows receiving (received datagram) r at w =
      after_query-Follows datagram _ r at
        (process_query-IsUsable matches order iequals m _ (length (take max_query_buffer datagram)))
  step_in-Follows receiving receive_failed r at w = (
    record {
      answered = omega arith;
      handled = omega (arith, ap under_way at);
      taken = omega arith;
    },
    tt,
  )
  step_in-Follows (sending reply state) was_sent r at w =
      (sent_or_lost-Follows reply state r at w).0
  step_in-Follows (sending reply state) send_failed r at w =
      (sent_or_lost-Follows reply state r at w).1
  step_in-Follows phase e r at w = tt

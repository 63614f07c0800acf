-- ===== src/Dns/Receive/Accounts.antt =====
-- What the receive loop of src/dnsd/DnsDaemon.cpp counts.
use v_ubercool.Base.{
  ℕ, ◌%◌, ◌^◌, ◌≡◌, refl, ◌∙◌, Bool, some, List, [], ◌∷◌, Bytes, length, take, arith, inl, inr,
}
use v_ubercool.Base.Tree.{OnSome, >>=-OnSome, OnSome-at, OnSome-mono}
use v_ubercool.Stats.{reset, dns, count_request}
use v_ubercool.Stats.Totals.{sum_of, sum_of-snoc}
use v_ubercool.Dns.Labels.{ByteOrder}
use v_ubercool.Dns.Zones.{ZoneMgr}
use v_ubercool.Dns.Daemon.{Handled, replied, thrown}
use v_ubercool.Dns.Daemon.Usable.{IsUsable, process_query-IsUsable}
use v_ubercool.Dns.Receive.{
  Phase, receiving, sending, stopped, crashed, Receiver, start_receiving, max_query_buffer,
  end_round, count_unknown, after_query, count_received, after_send, update_stats, Event, received,
  receive_failed, was_sent, send_failed, reported, answer_query, step_in, step, run,
}
use v_ubercool.Dns.Receive.Steps.{
  tally, datagrams, replies, octets, requests, IsCounted, IsWaiting, Follows, error-IsEnded,
  step_in-Follows,
}

IsCounted-cons :
    (e : Event) (es : List Event) (r r' r'' : Receiver)
    → IsCounted (e ∷ []) r r'
    → IsCounted es r' r''
    → IsCounted (e ∷ es) r r''
IsCounted-cons (received datagram) es r r' r'' h k = record {
  answered = omega (arith, h.answered, k.answered);
  handled = omega (arith, h.handled, k.handled);
  taken = omega (arith, h.taken, k.taken);
}
IsCounted-cons was_sent es r r' r'' h k = record {
  answered = omega (arith, h.answered, k.answered);
  handled = omega (arith, h.handled, k.handled);
  taken = omega (arith, h.taken, k.taken);
}
IsCounted-cons e es r r' r'' h k = record {
  answered = ground (arith, h.answered, k.answered);
  handled = ground (arith, h.handled, k.handled);
  taken = ground (arith, h.taken, k.taken);
}

-- No reply is lost.
abbrev pub AllSent : List Event → Type 0
AllSent [] = Unit
AllSent (send_failed ∷ es) = ⊥
AllSent (e ∷ es) = AllSent es

AllSent-cons : (e : Event) (es : List Event) → AllSent (e ∷ es) → AllSent (e ∷ []) × AllSent es
AllSent-cons send_failed es h = absurd h
AllSent-cons (received datagram) es h = (tt, h)
AllSent-cons receive_failed es h = (tt, h)
AllSent-cons was_sent es h = (tt, h)
AllSent-cons reported es h = (tt, h)

-- The bad requests counted.
abbrev bads : Receiver → ℕ
bads r = tally (λ s. s.bad_requests) r

after_query-bads :
    (query : Bytes) (h : Handled) (r : Receiver)
    → IsUsable h
    → bads (after_query h (count_received query r)) ≡ bads r
unfolding after_query count_received end_round count_unknown count_request
after_query-bads query (replied [] state n) r u = absurd u
after_query-bads query (replied (b ∷ bs) state n) r u = refl
after_query-bads query (thrown e n) r u = elim (error-IsEnded e) [
  | inl (state, _, _) ↦ rw state refl
  | inr (state, _, _) ↦ rw state refl
]

update_stats-bads : (r : Receiver) → bads (update_stats r) ≡ bads r
unfolding update_stats reset
update_stats-bads r = omega (arith, sum_of-snoc dns (λ s. s.bad_requests) r.reports r.stats)

module _ (matches : Bytes → Bool) (order : ByteOrder) (iequals : Bytes → Bytes → Bool)
    (m : ZoneMgr) where
  run-Follows :
      (es : List Event) (r : Receiver)
      → IsWaiting r.phase
      → OnSome (IsCounted es r) (run matches order iequals m es r)
  unfolding run step OnSome
  run-Follows [] r w = record { answered = omega arith; handled = omega arith; taken = omega arith }
  run-Follows (e ∷ es) r w =
      >>=-OnSome (Follows e r) (IsCounted (e ∷ es) r) (step matches order iequals m e r)
        (run matches order iequals m es)
        (step_in-Follows matches order iequals m r.phase e r refl w)
        (λ r' h.
          OnSome-mono (IsCounted es r') (IsCounted (e ∷ es) r) (run matches order iequals m es r')
            (run-Follows es r' h.1) (λ r'' k. IsCounted-cons e es r r' r'' h.0 k))

  step_in-bads :
      (phase : Phase) (e : Event) (r : Receiver)
      → AllSent (e ∷ [])
      → OnSome (λ r'. bads r' ≡ bads r) (step_in matches order iequals m phase e r)
  unfolding step_in answer_query after_send end_round count_request OnSome
  step_in-bads receiving reported r h = update_stats-bads r
  step_in-bads (sending reply state) reported r h = update_stats-bads r
  step_in-bads stopped reported r h = update_stats-bads r
  step_in-bads crashed reported r h = update_stats-bads r
  step_in-bads receiving (received datagram) r h =
      after_query-bads (take max_query_buffer datagram) _ r
        (process_query-IsUsable matches order iequals m _ (length (take max_query_buffer datagram)))
  step_in-bads receiving receive_failed r h = refl
  step_in-bads (sending reply state) was_sent r h = refl
  step_in-bads (sending reply state) send_failed r h = absurd h
  step_in-bads phase e r h = tt

  run-bads :
      (es : List Event) (r : Receiver)
      → AllSent es
      → OnSome (λ r'. bads r' ≡ bads r) (run matches order iequals m es r)
  unfolding run step OnSome
  run-bads [] r h = refl
  run-bads (e ∷ es) r h =
      let parts = AllSent-cons e es h in
      >>=-OnSome (λ r'. bads r' ≡ bads r) (λ r'. bads r' ≡ bads r)
        (step matches order iequals m e r) (run matches order iequals m es)
        (step_in-bads r.phase e r parts.0)
        (λ r' k.
          OnSome-mono (λ r''. bads r'' ≡ bads r') (λ r''. bads r'' ≡ bads r)
            (run matches order iequals m es r') (run-bads es r' parts.1) (λ r'' l. l ∙ k))

  -- Whatever is received, and whenever the counters are reported: the successes counted and reported are
  -- the replies sent; every datagram is a success, a failure, a bad request, or is being answered, which may never end; and
  -- the octets counted are those received; all of this modulo 2 ^ 64.
  pub run-accounts :
      (es : List Event) (n : ℕ) {r : Receiver}
      → run matches order iequals m es (start_receiving n) ≡ some r
      → (tally (λ s. s.ok_requests) r % 2 ^ 64 ≡ replies es % 2 ^ 64)
        × (requests r % 2 ^ 64 ≡ datagrams es % 2 ^ 64)
        × (tally (λ s. s.bytes_received) r % 2 ^ 64 ≡ octets es % 2 ^ 64)
  unfolding start_receiving reset sum_of
  run-accounts es n {r} h =
      let w =
        OnSome-at (IsCounted es (start_receiving n))
          (run matches order iequals m es (start_receiving n))
          (run-Follows es (start_receiving n) tt) h in
      (omega (arith, w.answered), omega (arith, w.handled), omega (arith, w.taken))

  -- A request that is answered is never counted as bad, however malformed: unless a reply cannot be sent,
  -- the counter of the bad requests stays zero, and so do the reports of it.
  pub run-no_bad :
      (es : List Event) (n : ℕ) {r : Receiver}
      → AllSent es
      → run matches order iequals m es (start_receiving n) ≡ some r
      → (r.stats.bad_requests ≡ 0) × (sum_of dns (λ s. s.bad_requests) r.reports ≡ 0)
  unfolding start_receiving reset sum_of
  run-no_bad es n {r} all h =
      let e =
        OnSome-at (λ r'. bads r' ≡ bads (start_receiving n))
          (run matches order iequals m es (start_receiving n)) (run-bads es (start_receiving n) all)
          h in
      (omega (arith, e), omega (arith, e))

-- ===== src/Http/Session/Buffer.antt =====
-- The request buffer of a connection (src/httpd/HttpDaemon.cpp) over any run of its coroutine.
use v_ubercool.Base.{
  ℕ, ◌+◌, ◌-◌, ◌≤◌, ◌<◌, ◌≡◌, refl, Bool, false, not, ◌||◌, Option, none, some, [], ◌∷◌, Bytes,
  length, length-append, length-drop, drop, arith, ltb, ◌==◌, if_intro,
}
use v_ubercool.Stats.{State, ignore, bad}
use v_ubercool.Http.Config.{HttpConfig}
use v_ubercool.Http.Request.{HttpRequest}
use v_ubercool.Http.Vhosts.{get_host}
use v_ubercool.Http.Reply.{Encoding}
use v_ubercool.Http.Session.Serving.{IsServing, Serves, serve_resolved-Serves}
use v_ubercool.Http.Session.{
  buffer_size, Phase, reading, writing, writing_bad, closed, crashed, World, Event, received,
  written, failed, ParseResult, parsed, incomplete, bad_request, starts_with, contains_text,
  unparsed, on_stats, finish, end_round, while_open, to_phase, await_more, end_request, count_reply,
  take_octets, parse_again, parse_request, serve_resolved, on_result, round, next_request,
  after_write, after_read, step, resume,
}

-- A request that stands at the head of the octets.
abbrev pub IsTaken : HttpRequest → Bytes → Type 0
IsTaken req octets = (0 < req.request_length) × (req.request_length ≤ length octets)

-- What the connection relies on: of what the buffer can hold, the parser takes octets, and none that
-- it was not given.
unfoldable pub IsParser : (Bytes → Option HttpRequest) → Type 0
IsParser parse =
    (octets : Bytes) (req : HttpRequest)
    → length octets ≤ buffer_size
    → parse octets ≡ some req
    → IsTaken req octets

module _ (parse : Bytes → Option HttpRequest) (to_number : Bytes → Option ℕ)
    (is_regular_file : Bytes → Bool) (content : Bytes → Bytes) (compress : Encoding → Bytes → Bytes)
    (format_date : ℕ → Bytes) (config : HttpConfig) where
  -- What the buffer holds while the connection waits: when it waits for more, no request that the
  -- parser would accept and no end of a header, and room for two octets or more.
  abbrev pub IsWaiting : Bytes → Type 0
  IsWaiting octets =
      (length octets + 1 < buffer_size)
      × (parse octets ≡ none)
      × (contains_text (13 ∷ 10 ∷ 13 ∷ 10 ∷ []) octets ≡ false)

  abbrev pub Holds : Phase → HttpRequest → Bytes → Type 0
  Holds reading req octets = IsWaiting octets
  Holds (writing s) req octets = IsTaken req octets × (length octets ≤ buffer_size)
  Holds phase req octets = length octets ≤ buffer_size

  -- The invariant.
  unfoldable pub IsSound : World → Type 0
  IsSound w = Holds w.conn.phase w.conn.current_req w.conn.received

  finish-IsSound : (w : World) → length w.conn.received ≤ buffer_size → IsSound (finish w)
  unfolding finish IsSound
  finish-IsSound w h = h

  while_open-IsSound :
      (stay w : World)
      → IsSound stay
      → length w.conn.received ≤ buffer_size
      → IsSound (while_open stay w)
  unfolding while_open
  while_open-IsSound stay w h k =
      if_intro IsSound w.conn.socket_open _ _ (λ _. h) (λ _. finish-IsSound w k)

  serving-Holds :
      (p : Phase) (req : HttpRequest) (octets : Bytes)
      → IsServing p
      → IsTaken req octets
      → length octets ≤ buffer_size
      → Holds p req octets
  serving-Holds reading req octets i t h = absurd i
  serving-Holds writing_bad req octets i t h = h
  serving-Holds (writing s) req octets i t h = (t, h)
  serving-Holds closed req octets i t h = h
  serving-Holds crashed req octets i t h = h

  Serves-IsSound :
      (w w' : World)
      → Serves w w'
      → IsTaken w.conn.current_req w.conn.received
      → length w.conn.received ≤ buffer_size
      → IsSound w'
  unfolding IsSound
  Serves-IsSound w w' (same, same_req, serving) t h =
      rw (same, same_req)
        (serving-Holds w'.conn.phase w.conn.current_req w.conn.received serving t h)

  unparsed-IsWaiting :
      (octets : Bytes) → parse octets ≡ none → unparsed octets ≡ incomplete → IsWaiting octets
  unfolding unparsed
  unparsed-IsWaiting octets e h = ground arith

  -- What the verdict on a buffer says of it.
  abbrev Judged : Bytes → ParseResult → Type 0
  Judged octets incomplete = IsWaiting octets
  Judged octets (parsed req) = IsTaken req octets
  Judged octets bad_request = Unit

  unparsed-Judged :
      (octets : Bytes) (r : ParseResult)
      → parse octets ≡ none
      → unparsed octets ≡ r
      → Judged octets r
  unfolding unparsed
  unparsed-Judged octets (parsed req) e h = ground arith
  unparsed-Judged octets bad_request e h = tt
  unparsed-Judged octets incomplete e h = unparsed-IsWaiting octets e h

  option-Judged :
      (octets : Bytes) (o : Option HttpRequest)
      → IsParser parse
      → length octets ≤ buffer_size
      → parse octets ≡ o
      → Judged octets (elim o [ some req ↦ parsed req | none ↦ unparsed octets ])
  unfolding IsParser
  option-Judged octets none c h e = unparsed-Judged octets _ e refl
  option-Judged octets (some req) c h e = c octets req h e

  parse_request-Judged :
      (octets : Bytes)
      → IsParser parse
      → length octets ≤ buffer_size
      → Judged octets
          (parse_request parse to_number is_regular_file content compress format_date config octets)
  unfolding parse_request
  parse_request-Judged octets c h = option-Judged octets (parse octets) c h refl

  on_result-IsSound :
      (now : ℕ) (w : World) (r : ParseResult)
      → Judged w.conn.received r
      → length w.conn.received ≤ buffer_size
      → IsSound
          (on_result parse to_number is_regular_file content compress format_date config now w r)
  unfolding on_result await_more IsSound end_round on_stats to_phase
  on_result-IsSound now w (parsed req) j h =
      Serves-IsSound (record w { conn = record w.conn { current_req = req } })
        (serve_resolved parse to_number is_regular_file content compress format_date config now
          (record w { conn = record w.conn { current_req = req } })
          (get_host to_number config req.host))
        (serve_resolved-Serves parse to_number is_regular_file content compress format_date config
          now (record w { conn = record w.conn { current_req = req } })
          (get_host to_number config req.host))
        j h
  on_result-IsSound now w bad_request j h = h
  on_result-IsSound now w incomplete j h =
      while_open-IsSound (to_phase reading (end_round ignore w)) (end_round ignore w) j h

  round-IsSound :
      (now : ℕ) (w : World)
      → IsParser parse
      → length w.conn.received ≤ buffer_size
      → IsSound (round parse to_number is_regular_file content compress format_date config now w)
  unfolding round
  round-IsSound now w c h = on_result-IsSound now w _ (parse_request-Judged w.conn.received c h) h

  nothing-none : (o : Option HttpRequest) → IsParser parse → parse [] ≡ o → o ≡ none
  unfolding IsParser
  nothing-none none c e = refl
  nothing-none (some req) c e =
      let (some_taken, taken) = c [] req (omega arith) e in
      absurd (omega (arith, some_taken, taken))

  pub empty-IsWaiting : IsParser parse → IsWaiting []
  unfolding contains_text starts_with
  empty-IsWaiting c = (omega arith, nothing-none (parse []) c refl, refl)

  crash-IsSound : (w : World) → length w.conn.received ≤ buffer_size → IsSound (to_phase crashed w)
  unfolding IsSound to_phase
  crash-IsSound w h = h

  await_more-IsSound : (w : World) → IsWaiting w.conn.received → IsSound (await_more w)
  unfolding await_more IsSound to_phase
  await_more-IsSound w i = while_open-IsSound (to_phase reading w) w i (omega (arith, i.0))

  parse_again-IsSound :
      (now : ℕ) (w : World)
      → IsParser parse
      → length w.conn.received ≤ buffer_size
      → IsSound
          (parse_again parse to_number is_regular_file content compress format_date config now w)
  unfolding parse_again
  parse_again-IsSound now w c h = while_open-IsSound _ w (round-IsSound now w c h) h

  drop_fits :
      (n : ℕ) (octets : Bytes) → length octets ≤ buffer_size → length (drop n octets) ≤ buffer_size
  drop_fits n octets h = omega (arith, length-drop n octets, h)

  next_request-IsSound :
      (now : ℕ) (state : State) (w : World)
      → IsParser parse
      → length w.conn.received ≤ buffer_size
      → IsSound (
          next_request parse to_number is_regular_file content compress format_date config now state
            w)
  unfolding next_request end_request end_round on_stats
  next_request-IsSound now state w c h =
      let rest : Bytes = drop w.conn.current_req.request_length w.conn.received in
      if_intro IsSound (length w.conn.received == w.conn.current_req.request_length) _ _
        (λ _. await_more-IsSound (end_request state [] w) (empty-IsWaiting c))
        (λ _.
          if_intro IsSound (ltb (length w.conn.received) w.conn.current_req.request_length) _ _
            (λ _. crash-IsSound w h)
            (λ _.
              parse_again-IsSound now (end_request state rest w) c (drop_fits _ w.conn.received h)))

  after_write-IsSound :
      (now : ℕ) (state : State) (w : World)
      → IsParser parse
      → length w.conn.received ≤ buffer_size
      → IsSound (
          after_write parse to_number is_regular_file content compress format_date config now state
            w)
  unfolding after_write end_round count_reply on_stats
  after_write-IsSound now state w c h =
      if_intro IsSound (not w.conn.socket_open || w.conn.current_reply.close_on_reply) _ _
        (λ _. finish-IsSound (end_round state (count_reply w)) h)
        (λ _. next_request-IsSound now state (count_reply w) c h)

  -- What the system may deliver: `async_read_some` fills no more than the rest of the buffer.
  unfoldable pub IsDelivery : Bytes → Event → Type 0
  IsDelivery buffer (received now octets) = length octets ≤ buffer_size - length buffer
  IsDelivery buffer e = Unit

  Holds-bound :
      (p : Phase) (req : HttpRequest) (octets : Bytes)
      → Holds p req octets
      → length octets ≤ buffer_size
  Holds-bound reading req octets h = omega (arith, h.0)
  Holds-bound (writing s) req octets h = h.1
  Holds-bound writing_bad req octets h = h
  Holds-bound closed req octets h = h
  Holds-bound crashed req octets h = h

  after_read-IsSound :
      (now : ℕ) (octets : Bytes) (w : World)
      → IsParser parse
      → length octets ≤ buffer_size - length w.conn.received
      → length w.conn.received ≤ buffer_size
      → IsSound (
          after_read parse to_number is_regular_file content compress format_date config now octets
            w)
  unfolding after_read take_octets on_stats
  after_read-IsSound now octets w c d h =
      round-IsSound now (take_octets octets w) c
        (omega (arith, length-append w.conn.received octets, d, h))

  step-IsSound :
      (e : Event) (p : Phase) (w : World)
      → IsParser parse
      → IsDelivery w.conn.received e
      → length w.conn.received ≤ buffer_size
      → IsSound w
      → IsSound (step parse to_number is_regular_file content compress format_date config e p w)
  unfolding step IsDelivery end_round on_stats
  step-IsSound (received now octets) reading w c d h k = after_read-IsSound now octets w c d h
  step-IsSound (failed now) reading w c d h k = finish-IsSound w h
  step-IsSound (written now) reading w c d h k = k
  step-IsSound (written now) (writing state) w c d h k = after_write-IsSound now state w c h
  step-IsSound (failed now) (writing state) w c d h k = finish-IsSound (end_round state w) h
  step-IsSound (received now octets) (writing state) w c d h k = k
  step-IsSound (written now) writing_bad w c d h k = finish-IsSound (end_round bad w) h
  step-IsSound (failed now) writing_bad w c d h k = finish-IsSound (end_round bad w) h
  step-IsSound (received now octets) writing_bad w c d h k = k
  step-IsSound (received now octets) closed w c d h k = k
  step-IsSound (written now) closed w c d h k = k
  step-IsSound (failed now) closed w c d h k = k
  step-IsSound (received now octets) crashed w c d h k = k
  step-IsSound (written now) crashed w c d h k = k
  step-IsSound (failed now) crashed w c d h k = k

  IsSound-bound : (w : World) → IsSound w → length w.conn.received ≤ buffer_size
  unfolding IsSound
  IsSound-bound w h = Holds-bound w.conn.phase w.conn.current_req w.conn.received h

  pub resume-IsSound :
      (e : Event) (w : World)
      → IsParser parse
      → IsDelivery w.conn.received e
      → IsSound w
      → IsSound (resume parse to_number is_regular_file content compress format_date config e w)
  unfolding resume
  resume-IsSound e w c d h = step-IsSound e w.conn.phase w c d (IsSound-bound w h) h

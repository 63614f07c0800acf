-- ===== src/Http/Session/Progress.antt =====
-- What a connection comes to (src/httpd/HttpDaemon.cpp) when its client takes the replies.
use v_ubercool.Base.{
  ℕ, suc, ◌+◌, ◌≤◌, ◌<◌, ◌≡◌, refl, Bool, not, ◌||◌, Option, List, [], ◌∷◌, Bytes, length,
  length-drop, drop, arith, ltb, ◌==◌, if_intro,
}
use v_ubercool.Stats.{State}
use v_ubercool.Http.Config.{HttpConfig}
use v_ubercool.Http.Request.{HttpRequest}
use v_ubercool.Http.Vhosts.{get_host}
use v_ubercool.Http.Reply.{Encoding}
use v_ubercool.Http.Session.{
  Phase, reading, writing, writing_bad, closed, crashed, Server, World, written, ParseResult,
  parsed, incomplete, bad_request, on_stats, end_round, end_request, count_reply, serve_resolved,
  on_result, round, parse_again, next_request, after_write, step, resume,
}
use v_ubercool.Http.Session.Serving.{serve_resolved-Serves}
use v_ubercool.Http.Session.Buffer.{IsParser, IsTaken, IsSound, IsDelivery, Holds}
use v_ubercool.Http.Session.Run.{interfere, Reachable, resumed, meanwhile, Reachable-IsSound}
use v_ubercool.Http.Session.Pending.{
  replies_left, left, IsSettled, AtMost, finish-AtMost, crash-AtMost, while_open-AtMost,
  await_more-AtMost, same-AtMost, weaken-AtMost, idle-AtMost, left-IsSettled, start-AtMost,
}

-- The end of a write, with what the other coroutines of the thread did before it.
pub record Turn : Type 0 where
  pub server : Server
  pub is_open : Bool
  pub date : Bytes
  pub now : ℕ

module _ (parse : Bytes → Option HttpRequest) (to_number : Bytes → Option ℕ)
    (is_regular_file : Bytes → Bool) (content : Bytes → Bytes) (compress : Encoding → Bytes → Bytes)
    (format_date : ℕ → Bytes) (config : HttpConfig) where
  on_result-AtMost :
      (now n : ℕ) (w : World) (r : ParseResult)
      → suc (length w.conn.received) ≤ n
      → AtMost n
          (on_result parse to_number is_regular_file content compress format_date config now w r)
  unfolding on_result
  on_result-AtMost now n w (parsed req) h =
      let w1 = record w { conn = record w.conn { current_req = req } } in
      let host = get_host to_number config req.host in
      same-AtMost n w
        (serve_resolved parse to_number is_regular_file content compress format_date config now w1
          host)
        (serve_resolved-Serves parse to_number is_regular_file content compress format_date config
          now w1 host).0
        h
  on_result-AtMost now n w bad_request h = same-AtMost n w _ refl h
  on_result-AtMost now n w incomplete h = await_more-AtMost n (end_round _ w)

  next_request-AtMost :
      (now : ℕ) (state : State) (w : World)
      → IsTaken w.conn.current_req w.conn.received
      → AtMost (length w.conn.received) (
          next_request parse to_number is_regular_file content compress format_date config now state
            w)
  unfolding next_request parse_again round end_request end_round on_stats
  next_request-AtMost now state w (some_taken, taken) =
      let n = length w.conn.received in
      let size = w.conn.current_req.request_length in
      let w1 = end_request state (drop size w.conn.received) w in
      if_intro (AtMost n) (n == size) _ _ (λ _. await_more-AtMost n (end_request state [] w))
        (λ _.
          if_intro (AtMost n) (ltb n size) _ _ (λ _. crash-AtMost n w)
            (λ _. while_open-AtMost n _ w1 (
              on_result-AtMost now n w1 _
                (omega (arith, length-drop size w.conn.received, some_taken, taken)))))

  after_write-AtMost :
      (now : ℕ) (state : State) (w : World)
      → IsTaken w.conn.current_req w.conn.received
      → AtMost (length w.conn.received) (
          after_write parse to_number is_regular_file content compress format_date config now state
            w)
  unfolding after_write count_reply on_stats
  after_write-AtMost now state w t =
      if_intro (AtMost (length w.conn.received))
        (not w.conn.socket_open || w.conn.current_reply.close_on_reply) _ _
        (λ _. finish-AtMost _ (end_round state (count_reply w)))
        (λ _. next_request-AtMost now state (count_reply w) t)

  -- The step of a write's end takes one reply off.
  step-written-AtMost :
      (now n : ℕ) (p : Phase) (w : World)
      → Holds parse to_number is_regular_file content compress format_date config p
          w.conn.current_req w.conn.received
      → p ≡ w.conn.phase
      → replies_left p w.conn.received ≤ suc n
      → AtMost n (
          step parse to_number is_regular_file content compress format_date config
            (written now)
            p
            w)
  unfolding step replies_left
  step-written-AtMost now n (writing state) w h e k =
      weaken-AtMost (length w.conn.received) n
        (after_write parse to_number is_regular_file content compress format_date config now state
          w)
        (after_write-AtMost now state w h.0) (omega (arith, k))
  step-written-AtMost now n writing_bad w h e k = finish-AtMost n (end_round _ w)
  step-written-AtMost now n reading w h e k = idle-AtMost n _ w e (λ octets. refl)
  step-written-AtMost now n closed w h e k = idle-AtMost n _ w e (λ octets. refl)
  step-written-AtMost now n crashed w h e k = idle-AtMost n _ w e (λ octets. refl)

  resume-written-AtMost :
      (now n : ℕ) (w : World)
      → IsSound parse to_number is_regular_file content compress format_date config w
      → AtMost (suc n) w
      → AtMost n (
          resume parse to_number is_regular_file content compress format_date config
            (written now)
            w)
  unfolding resume IsSound AtMost left
  resume-written-AtMost now n w h k = step-written-AtMost now n w.conn.phase w h refl k

  interfere-AtMost :
      (n : ℕ) (server : Server) (is_open : Bool) (date : Bytes) (w : World)
      → AtMost n w
      → AtMost n (interfere server is_open date w)
  unfolding interfere AtMost left
  interfere-AtMost n server is_open date w h = h

  -- One turn: the others act, then the write ends.
  take_turn : Turn → World → World
  unfolding interfere resume
  take_turn t w =
      resume parse to_number is_regular_file content compress format_date config (written t.now)
        (interfere t.server t.is_open t.date w)

  pub take_replies : List Turn → World → World
  unfolding take_turn
  take_replies [] w = w
  take_replies (t ∷ ts) w = take_replies ts (take_turn t w)

  take_turn-Reachable :
      (t : Turn) (w : World)
      → Reachable parse to_number is_regular_file content compress format_date config w
      → Reachable parse to_number is_regular_file content compress format_date config
          (take_turn t w)
  unfolding take_turn IsDelivery
  take_turn-Reachable t w r = resumed (written t.now) (meanwhile t.server t.is_open t.date r) tt

  take_turn-AtMost :
      (t : Turn) (n : ℕ) (w : World)
      → IsParser parse
      → Reachable parse to_number is_regular_file content compress format_date config w
      → AtMost (suc n) w
      → AtMost n (take_turn t w)
  unfolding take_turn
  take_turn-AtMost t n w c r h =
      let w1 = interfere t.server t.is_open t.date w in
      resume-written-AtMost t.now n w1
        (Reachable-IsSound parse to_number is_regular_file content compress format_date config w1 c
          (meanwhile t.server t.is_open t.date r))
        (interfere-AtMost (suc n) t.server t.is_open t.date w h)

  take_replies-AtMost :
      (ts : List Turn) (n : ℕ) (w : World)
      → IsParser parse
      → Reachable parse to_number is_regular_file content compress format_date config w
      → AtMost (n + length ts) w
      → AtMost n (take_replies ts w)
  unfolding take_replies
  take_replies-AtMost [] n w c r h = weaken-AtMost (n + 0) n w h (omega arith)
  take_replies-AtMost (t ∷ ts) n w c r h =
      take_replies-AtMost ts n (take_turn t w) c (take_turn-Reachable t w r)
        (take_turn-AtMost t (n + length ts) w c r (weaken-AtMost _ _ w h (omega arith)))

  -- A client that takes the replies, whatever it has sent and whatever the other connections do, gets
  -- them all after as many writes as there are octets in the buffer and one more: then no reply is on
  -- its way, and the connection waits for octets, is over, or has come to undefined behaviour. The
  -- parser must take octets, and none that it was not given.
  pub take_replies-IsSettled :
      (w : World) (ts : List Turn)
      → IsParser parse
      → Reachable parse to_number is_regular_file content compress format_date config w
      → length w.conn.received < length ts
      → IsSettled (take_replies ts w).conn.phase
  take_replies-IsSettled w ts c r h = left-IsSettled (take_replies ts w) (
      take_replies-AtMost ts 0 w c r (
        weaken-AtMost (suc (length w.conn.received)) (0 + length ts) w (start-AtMost w)
          (omega (arith, h))))

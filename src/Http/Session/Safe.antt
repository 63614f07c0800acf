-- ===== src/Http/Session/Safe.antt =====
-- The behaviour that a connection (src/httpd/HttpDaemon.cpp) must not come to: a buffer from which
-- more is taken than it holds, and a host without a factory or outside the sites.
use v_ubercool.Base.{
  ℕ, ◌<◌, ◌≡◌, refl, ◌∙◌, Bool, not, ◌||◌, Option, none, some, List, [], Bytes, All, All-get_elem?,
  All-set, length, length-set, get_elem?, get_elem?_of_lt, drop, arith, ltb, ◌==◌, if_intro,
}
use v_ubercool.Stats.{State, bad}
use v_ubercool.Http.Config.{HttpConfig}
use v_ubercool.Http.Request.{HttpRequest}
use v_ubercool.Http.Vhosts.{PackedHostData, Resolved, site, unknown_host, redirect, get_host}
use v_ubercool.Http.Vhosts.Sites.{get_host_found}
use v_ubercool.Http.Vhosts.Template.{default_host-Keeps, static_page_host-Keeps}
use v_ubercool.Http.Hosts.{Served, process_request}
use v_ubercool.Http.Reply.{Encoding}
use v_ubercool.Http.Session.{
  Phase, reading, writing, writing_bad, closed, crashed, World, Event, received, written, failed,
  ParseResult, parsed, incomplete, bad_request, on_stats, finish, end_round, while_open, to_phase,
  await_more, end_request, count_reply, take_octets, start_writing, serve_host, serve_site,
  serve_resolved, on_result, round, parse_again, next_request, after_write, after_read, step,
  resume,
}
use v_ubercool.Http.Session.Buffer.{IsParser, IsTaken, IsSound, Holds}
use v_ubercool.Http.Session.Run.{Reachable, Reachable-IsSound}

-- A site whose template has a factory, and the data of all sites.
unfoldable pub HasFactory : PackedHostData → Type 0
HasFactory d = d.host_template < 2

unfoldable pub IsHosted : HttpConfig → List PackedHostData → Type 0
IsHosted config hosts = (length hosts ≡ config.num_sites) × All HasFactory hosts

unfoldable pub IsDefined : Phase → Type 0
IsDefined crashed = ⊥
IsDefined phase = Unit

module _ (parse : Bytes → Option HttpRequest) (to_number : Bytes → Option ℕ)
    (is_regular_file : Bytes → Bool) (content : Bytes → Bytes) (compress : Encoding → Bytes → Bytes)
    (format_date : ℕ → Bytes) (config : HttpConfig) where
  -- Nothing undefined has happened, and the sites are as they must be.
  IsFine : World → Type 0
  IsFine w = IsHosted config w.server.hosts × IsDefined w.conn.phase

  HasServed : Option (PackedHostData × Served) → Type 0
  HasServed none = ⊥
  HasServed (some (d, served)) = HasFactory d

  process_request-HasServed :
      (ix : ℕ) (req : HttpRequest) (d : PackedHostData)
      → HasFactory d
      → HasServed (process_request is_regular_file content ix req d)
  unfolding HasServed HasFactory process_request
  process_request-HasServed ix req d h =
      if_intro HasServed (d.host_template == 0) _ _
        (λ _. omega (arith, default_host-Keeps req.method req.uri d, h))
        (λ n.
          if_intro HasServed (d.host_template == 1) _ _
            (λ _. omega (arith, static_page_host-Keeps is_regular_file req.uri d, h))
            (λ m. absurd (ground arith)))

  serve_host-IsFine :
      (now ix : ℕ) (w : World) (o : Option (PackedHostData × Served))
      → IsHosted config w.server.hosts
      → HasServed o
      → IsFine (
          serve_host parse to_number is_regular_file content compress format_date config now ix w o)
  unfolding serve_host start_writing IsFine HasServed IsHosted IsDefined
  serve_host-IsFine now ix w none h k = absurd k
  serve_host-IsFine now ix w (some (d, served)) h k =
      ((length-set w.server.hosts ix d ∙ h.0, All-set HasFactory w.server.hosts ix d h.1 k), tt)

  serve_site-IsFine :
      (now ix : ℕ) (w : World) (o : Option PackedHostData)
      → IsHosted config w.server.hosts
      → get_elem? w.server.hosts ix ≡ o
      → ix < config.num_sites
      → IsFine (
          serve_site parse to_number is_regular_file content compress format_date config now ix w o)
  unfolding serve_site IsHosted
  serve_site-IsFine now ix w none h e k =
      let (d, found) = get_elem?_of_lt w.server.hosts ix (omega (arith, h.0, k)) in cc
  serve_site-IsFine now ix w (some d) h e k = serve_host-IsFine now ix w _ h (
      process_request-HasServed ix w.conn.current_req d
        (All-get_elem? HasFactory w.server.hosts ix h.1 e))

  serve_resolved-IsFine :
      (now : ℕ) (w : World) (r : Resolved) (name : Bytes)
      → IsHosted config w.server.hosts
      → get_host to_number config name ≡ r
      → IsFine (
          serve_resolved parse to_number is_regular_file content compress format_date config now w
            r)
  unfolding serve_resolved end_round on_stats finish IsFine IsDefined
  serve_resolved-IsFine now w (site ix) name h e =
      serve_site-IsFine now ix w _ h refl (get_host_found to_number config name e).0
  serve_resolved-IsFine now w unknown_host name h e = (h, tt)
  serve_resolved-IsFine now w (redirect url) name h e = (h, tt)

  while_open-IsFine :
      (stay w : World) → IsFine stay → IsHosted config w.server.hosts → IsFine (while_open stay w)
  unfolding while_open finish IsFine IsDefined
  while_open-IsFine stay w h k = if_intro IsFine w.conn.socket_open _ _ (λ _. h) (λ _. (k, tt))

  await_more-IsFine : (w : World) → IsHosted config w.server.hosts → IsFine (await_more w)
  unfolding await_more to_phase IsFine IsDefined
  await_more-IsFine w h = while_open-IsFine (to_phase reading w) w (h, tt) h

  finish-IsFine : (w : World) → IsHosted config w.server.hosts → IsFine (finish w)
  unfolding finish IsFine IsDefined
  finish-IsFine w h = (h, tt)

  bad-IsFine :
      (now : ℕ) (w : World)
      → IsHosted config w.server.hosts
      → IsFine (
          on_result parse to_number is_regular_file content compress format_date config now w
            bad_request)
  unfolding on_result IsFine IsDefined
  bad-IsFine now w h = (h, tt)

  on_result-IsFine :
      (now : ℕ) (w : World) (r : ParseResult)
      → IsHosted config w.server.hosts
      → IsFine
          (on_result parse to_number is_regular_file content compress format_date config now w r)
  unfolding on_result end_round on_stats
  on_result-IsFine now w (parsed req) h =
      serve_resolved-IsFine now (record w { conn = record w.conn { current_req = req } }) _ req.host
        h refl
  on_result-IsFine now w bad_request h = bad-IsFine now w h
  on_result-IsFine now w incomplete h = await_more-IsFine (end_round _ w) h

  next_request-IsFine :
      (now : ℕ) (state : State) (w : World)
      → IsTaken w.conn.current_req w.conn.received
      → IsHosted config w.server.hosts
      → IsFine (
          next_request parse to_number is_regular_file content compress format_date config now state
            w)
  unfolding next_request parse_again round end_request end_round on_stats
  next_request-IsFine now state w t h =
      let n = length w.conn.received in
      let size = w.conn.current_req.request_length in
      let w1 = end_request state (drop size w.conn.received) w in
      if_intro IsFine (n == size) _ _ (λ _. await_more-IsFine (end_request state [] w) h)
        (λ _.
          if_intro IsFine (ltb n size) _ _ (λ below. absurd (ground (arith, t.1)))
            (λ _. while_open-IsFine _ w1 (on_result-IsFine now w1 _ h) h))

  after_write-IsFine :
      (now : ℕ) (state : State) (w : World)
      → IsTaken w.conn.current_req w.conn.received
      → IsHosted config w.server.hosts
      → IsFine (
          after_write parse to_number is_regular_file content compress format_date config now state
            w)
  unfolding after_write count_reply end_round on_stats
  after_write-IsFine now state w t h =
      if_intro IsFine (not w.conn.socket_open || w.conn.current_reply.close_on_reply) _ _
        (λ _. finish-IsFine (end_round state (count_reply w)) h)
        (λ _. next_request-IsFine now state (count_reply w) t h)

  after_read-IsFine :
      (now : ℕ) (octets : Bytes) (w : World)
      → IsHosted config w.server.hosts
      → IsFine (
          after_read parse to_number is_regular_file content compress format_date config now octets
            w)
  unfolding after_read round take_octets on_stats
  after_read-IsFine now octets w h = on_result-IsFine now (take_octets octets w) _ h

  step-IsFine :
      (e : Event) (p : Phase) (w : World)
      → Holds parse to_number is_regular_file content compress format_date config p
          w.conn.current_req w.conn.received
      → IsFine w
      → IsFine (step parse to_number is_regular_file content compress format_date config e p w)
  unfolding step end_round on_stats IsFine
  step-IsFine (received now octets) reading w k h = after_read-IsFine now octets w h.0
  step-IsFine (failed now) reading w k h = finish-IsFine w h.0
  step-IsFine (written now) reading w k h = h
  step-IsFine (written now) (writing state) w k h = after_write-IsFine now state w k.0 h.0
  step-IsFine (failed now) (writing state) w k h = finish-IsFine (end_round state w) h.0
  step-IsFine (received now octets) (writing state) w k h = h
  step-IsFine (written now) writing_bad w k h = finish-IsFine (end_round bad w) h.0
  step-IsFine (failed now) writing_bad w k h = finish-IsFine (end_round bad w) h.0
  step-IsFine (received now octets) writing_bad w k h = h
  step-IsFine (received now octets) closed w k h = h
  step-IsFine (written now) closed w k h = h
  step-IsFine (failed now) closed w k h = h
  step-IsFine (received now octets) crashed w k h = h
  step-IsFine (written now) crashed w k h = h
  step-IsFine (failed now) crashed w k h = h

  -- Nothing that a connection is sent, and no end of a read or a write, brings it to undefined
  -- behaviour: it never takes more out of its buffer than is there, and never asks for a site that has
  -- no data or no factory, if all sites have them before, and then all have them behind it. The parser
  -- must take octets, and none that it was not given.
  pub resume-IsDefined :
      (e : Event) (w : World)
      → IsParser parse
      → Reachable parse to_number is_regular_file content compress format_date config w
      → IsHosted config w.server.hosts
      → IsDefined w.conn.phase
      → let w' = resume parse to_number is_regular_file content compress format_date config e w in
        IsHosted config w'.server.hosts × IsDefined w'.conn.phase
  unfolding resume IsFine IsSound
  resume-IsDefined e w c r hosted defined =
      step-IsFine e w.conn.phase w
        (Reachable-IsSound parse to_number is_regular_file content compress format_date config w c
          r)
        (hosted, defined)

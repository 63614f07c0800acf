-- ===== src/Http/Session/Refusals.antt =====
-- How a connection ends behind a request that is not served (src/httpd/HttpDaemon.cpp).
use v_ubercool.Base.{
  ℕ, ◌≡◌, refl, Bool, true, false, not, ◌||◌, Option, some, Bytes, if_intro, arith,
}
use v_ubercool.Stats.{State, bad}
use v_ubercool.Http.Config.{HttpConfig}
use v_ubercool.Http.Request.{HttpRequest, is_closing}
use v_ubercool.Http.Vhosts.{PackedHostData}
use v_ubercool.Http.Hosts.{Served, body, not_found, not_allowed}
use v_ubercool.Http.Reply.{Encoding, reply, reply_with_error, do_reply}
use v_ubercool.Http.Session.{
  closed, World, Event, received, written, failed, bad_request, on_result, finish, end_round,
  count_reply, start_writing, serve_host, after_write, step, resume,
}

-- The connection is over.
abbrev pub IsOver : World → Type 0
IsOver w = (w.conn.phase ≡ closed) × (w.conn.socket_open ≡ false)

-- What ends a connection: an error, and a request of HTTP/1.0.
unfoldable pub Ends : HttpRequest → Served → Type 0
Ends req (body text) = is_closing req ≡ true
Ends req not_found = Unit
Ends req not_allowed = Unit

-- The end of a write, or its failure.
abbrev pub EndsWrite : Event → Type 0
EndsWrite (received t octets) = ⊥
EndsWrite e = Unit

finish-IsOver : (w : World) → IsOver (finish w)
unfolding finish
finish-IsOver w = (refl, refl)

module _ (parse : Bytes → Option HttpRequest) (to_number : Bytes → Option ℕ)
    (is_regular_file : Bytes → Bool) (content : Bytes → Bytes) (compress : Encoding → Bytes → Bytes)
    (format_date : ℕ → Bytes) (config : HttpConfig) where
  after_write-IsOver :
      (now : ℕ) (state : State) (w : World)
      → w.conn.current_reply.close_on_reply ≡ true
      → IsOver (
          after_write parse to_number is_regular_file content compress format_date config now state
            w)
  unfolding after_write
  after_write-IsOver now state w closing =
      if_intro IsOver (not w.conn.socket_open || w.conn.current_reply.close_on_reply) _ _
        (λ _. finish-IsOver (end_round state (count_reply w)))
        (λ stays. absurd (ground (arith, stays, closing)))

  -- The reply to a request that the parser refuses ends the connection, when it has been taken or has
  -- been lost.
  bad_request-IsOver :
      (now : ℕ) (e : Event) (w : World)
      → EndsWrite e
      → IsOver (
          resume parse to_number is_regular_file content compress format_date config e (
            on_result parse to_number is_regular_file content compress format_date config now w
              bad_request))
  unfolding resume step on_result
  bad_request-IsOver now (written t) w i = finish-IsOver (
      end_round bad (
        on_result parse to_number is_regular_file content compress format_date config now w
          bad_request))
  bad_request-IsOver now (failed t) w i = finish-IsOver (
      end_round bad (
        on_result parse to_number is_regular_file content compress format_date config now w
          bad_request))
  bad_request-IsOver now (received t octets) w i = absurd i

  served-IsOver :
      (now t ix : ℕ) (w : World) (d : PackedHostData) (served : Served)
      → Ends w.conn.current_req served
      → IsOver (
          resume parse to_number is_regular_file content compress format_date config (written t) (
            serve_host parse to_number is_regular_file content compress format_date config now ix w
              (some (d, served))))
  unfolding resume step serve_host start_writing Ends reply reply_with_error do_reply
  served-IsOver now t ix w d (body text) e =
      after_write-IsOver t _
        (serve_host parse to_number is_regular_file content compress format_date config now ix w
          (some (d, body text)))
        e
  served-IsOver now t ix w d not_found e =
      after_write-IsOver t _
        (serve_host parse to_number is_regular_file content compress format_date config now ix w
          (some (d, not_found)))
        refl
  served-IsOver now t ix w d not_allowed e =
      after_write-IsOver t _
        (serve_host parse to_number is_regular_file content compress format_date config now ix w
          (some (d, not_allowed)))
        refl

  -- A reply with an error ends the connection, be it to a request that a site refuses or, first, to one
  -- that the parser refuses, and so does a reply to a request of HTTP/1.0: when the client has taken
  -- it the socket is closed, whatever else the client has sent. So it is for a request that the
  -- parser refuses when the reply is lost.
  pub serve_host-IsOver :
      (now t ix : ℕ) (e : Event) (w : World) (d : PackedHostData) (served : Served)
      → EndsWrite e
      → Ends w.conn.current_req served
      → IsOver (
          resume parse to_number is_regular_file content compress format_date config e (
            on_result parse to_number is_regular_file content compress format_date config now w
              bad_request))
        × IsOver (
            resume parse to_number is_regular_file content compress format_date config (written t) (
              serve_host parse to_number is_regular_file content compress format_date config now ix
                w
                (some (d, served))))
  serve_host-IsOver now t ix e w d served i ends =
      (bad_request-IsOver now e w i, served-IsOver now t ix w d served ends)

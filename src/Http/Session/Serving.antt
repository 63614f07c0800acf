-- ===== src/Http/Session/Serving.antt =====
-- What the session does with a request that it has parsed (src/httpd/HttpDaemon.cpp): the case `OK`.
use v_ubercool.Base.{ℕ, ◌≡◌, refl, Bool, Option, none, some, Bytes}
use v_ubercool.Http.Config.{HttpConfig}
use v_ubercool.Http.Request.{HttpRequest}
use v_ubercool.Http.Vhosts.{PackedHostData, Resolved, site, unknown_host, redirect}
use v_ubercool.Http.Hosts.{Served, body, not_found, not_allowed}
use v_ubercool.Http.Reply.{Encoding}
use v_ubercool.Http.Session.{
  Phase, reading, writing_bad, World, on_stats, finish, end_round, start_writing, serve_host,
  serve_site, serve_resolved,
}

-- The phases that a served request leads to.
abbrev pub IsServing : Phase → Type 0
IsServing reading = ⊥
IsServing writing_bad = ⊥
IsServing phase = Unit

-- A step behind which the request is being answered, or the connection over.
abbrev pub Serves : World → World → Type 0
Serves w w' =
    (w'.conn.received ≡ w.conn.received)
    × (w'.conn.current_req ≡ w.conn.current_req)
    × IsServing w'.conn.phase

module _ (parse : Bytes → Option HttpRequest) (to_number : Bytes → Option ℕ)
    (is_regular_file : Bytes → Bool) (content : Bytes → Bytes) (compress : Encoding → Bytes → Bytes)
    (format_date : ℕ → Bytes) (config : HttpConfig) where
  serve_host-Serves :
      (now ix : ℕ) (w : World) (o : Option (PackedHostData × Served))
      → Serves w (
          serve_host parse to_number is_regular_file content compress format_date config now ix w o)
  unfolding serve_host start_writing
  serve_host-Serves now ix w none = (refl, refl, tt)
  serve_host-Serves now ix w (some (d, body text)) = (refl, refl, tt)
  serve_host-Serves now ix w (some (d, not_found)) = (refl, refl, tt)
  serve_host-Serves now ix w (some (d, not_allowed)) = (refl, refl, tt)

  serve_site-Serves :
      (now ix : ℕ) (w : World) (o : Option PackedHostData)
      → Serves w (
          serve_site parse to_number is_regular_file content compress format_date config now ix w o)
  unfolding serve_site
  serve_site-Serves now ix w none = (refl, refl, tt)
  serve_site-Serves now ix w (some d) = serve_host-Serves now ix w _

  pub serve_resolved-Serves :
      (now : ℕ) (w : World) (r : Resolved)
      → Serves w (
          serve_resolved parse to_number is_regular_file content compress format_date config now w
            r)
  unfolding serve_resolved end_round on_stats finish
  serve_resolved-Serves now w (site ix) = serve_site-Serves now ix w _
  serve_resolved-Serves now w unknown_host = (refl, refl, tt)
  serve_resolved-Serves now w (redirect url) = (refl, refl, tt)

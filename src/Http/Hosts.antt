-- ===== src/Http/Hosts.antt =====
-- What a host writes to a reply: the page of `DefaultHost::ProcessRequest`, src/hosts/DefaultHost.cpp,
-- the file of `StaticPageHost::ProcessRequest`, src/hosts/StaticPageHost.cpp, and the choice between
-- the two by `host_factories_` of src/daemon/VhostManager.cpp. The file system is a parameter.
use v_ubercool.Base.{
  ℕ, Bool, Option, none, some, [], ◌∷◌, ◌++◌, Bytes, codes, decimal, ◌==◌, if◌then◌else◌,
}
use v_ubercool.Http.Config.{major, minor}
use v_ubercool.Http.Request.{HttpRequest}
use v_ubercool.Http.Vhosts.{
  PackedHostData, Page, welcome, file, invalid_resource, unsupported_method, default_host,
  static_page_host,
}

abbrev pub crlf : Bytes
crlf = 13 ∷ 10 ∷ []

-- A text with its line end.
abbrev line : Bytes → Bytes → Bytes
line text rest = text ++ (crlf ++ rest)

-- The page of site `id` that has had `hits` hits.
unfoldable pub welcome_text : ℕ → ℕ → Bool → Bytes
welcome_text id hits do_not_track =
    line (codes "<!DOCTYPE HTML PUBLIC \"-//IETF//DTD HTML 2.0//EN\">") (
      line (codes "<html><head>") (
        line
          (codes "<title>Welcome dear spider</title>"
            ++ (codes "<!-- site id# " ++ (decimal id ++ codes " -->")))
          (line (codes "</head><body>") (
            line (codes "<h1>This page is for you</h1>") (
              line (codes "<p>Please consume this jolly content with pride.</p>") (
                line
                  (codes "<p>This fantastic, distinct site has had "
                    ++ (decimal hits ++ codes " page-hits so far.</p>"))
                  ((if do_not_track then codes "<p>(I am not tracking you!)</p>" else [])
                    ++ line (codes "<hr>") (
                        line
                          (codes "<address>vUbercool/"
                            ++ (decimal major
                                ++ (b'.'
                                    ∷ (decimal minor
                                        ++ codes
                                            " Very High Performance HTTP/Web Application Server</address>"))))
                          (line (codes "</body></html>") crlf)))))))))

-- What the session finds: the body of a page, or one of the exceptions that it replies to.
pub data Served : Type 0 where
  body : Bytes → Served
  not_found not_allowed : Served

module _ (is_regular_file : Bytes → Bool) (content : Bytes → Bytes) where
  write_page : ℕ → Bool → Page → Served
  unfolding welcome_text
  write_page id do_not_track (welcome hits) = body (welcome_text id hits do_not_track)
  write_page id do_not_track (file path) = body (content path)
  write_page id do_not_track invalid_resource = not_found
  write_page id do_not_track unsupported_method = not_allowed

  -- `host_factories_[host_template]->Create(...)->ProcessRequest(...)` for site `id`; there are two
  -- factories, and another number is out of the vector's range.
  unfoldable pub process_request :
      ℕ → HttpRequest → PackedHostData → Option (PackedHostData × Served)
  unfolding write_page
  process_request id req d =
      if d.host_template == 0
      then (let (d1, page) = default_host req.method req.uri d in
          some (d1, write_page id req.do_not_track page))
      else if d.host_template == 1
      then (let (d1, page) = static_page_host is_regular_file req.uri d in
          some (d1, write_page id req.do_not_track page))
      else none

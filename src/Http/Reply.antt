-- ===== src/Http/Reply.antt =====
-- `CurrentReply` of src/httpd/HttpDaemon.cpp. What is written to `body_` goes through a compressor of
-- boost::iostreams, a parameter, and `strftime` with the format of the date is one too.
pub mod Framing
use v_ubercool.Base.{
  ℕ, ◌+◌, Bool, true, false, not, ◌&&◌, Option, none, some, List, [], ◌∷◌, ◌++◌, Bytes, codes,
  decimal, length, ◌==◌, if◌then◌else◌,
}
use v_ubercool.Http.Config.{HttpConfig, default_config, major, minor}
use v_ubercool.Http.Request.{HttpRequest, Method, head, is_closing, http_version_name}
use v_ubercool.Http.Hosts.{crlf}

pub data Encoding : Type 0 where
  gzip deflate : Encoding

-- The members; `out` is what the host has written to `body_`, and `date` the thread's `date`.
pub record CurrentReply : Type 0 where
  pub close_on_reply : Bool
  pub buffers : List Bytes
  pub compression_type : Option Encoding
  pub out : Bytes
  pub now : ℕ
  pub bytes_in_reply : ℕ
  pub date : Bytes

unfoldable pub encoding_name : Encoding → Bytes
encoding_name gzip = codes "gzip"
encoding_name deflate = codes "deflate"

-- `Prepare`, at the time `now`, with `Reset`.
choose_encoding : HttpRequest → HttpConfig → Option Encoding
choose_encoding req config =
    if req.accept_encoding_gzip && config.allow_gzip
    then some gzip
    else if req.accept_encoding_deflate && config.allow_deflate
    then some deflate
    else none

unfoldable pub prepare : ℕ → HttpRequest → HttpConfig → CurrentReply → CurrentReply
unfolding choose_encoding
prepare now req config r = record r {
  compression_type = choose_encoding req config;
  out = [];
  now = now;
  bytes_in_reply = 0;
}

abbrev line : Bytes → Bytes → Bytes
line text rest = text ++ (crlf ++ rest)

encoding_line : Option Encoding → Bytes → Bytes
unfolding encoding_name
encoding_line none rest = rest
encoding_line (some e) rest = line (codes "Content-Encoding: " ++ encoding_name e) rest

connection_lines : Bool → Bytes → Bytes
connection_lines true rest = line (codes "Connection: Close") rest
connection_lines false rest =
    line (codes "Connection: Keep-Alive") (line (codes "Keep-Alive: timeout=5, max=100") rest)

-- The text of `header_`.
header_text : CurrentReply → Bytes → ℕ → ℕ → Bytes → Bytes
unfolding encoding_line connection_lines
header_text r version code size msg = line (version ++ (b' ' ∷ (decimal code ++ (b' ' ∷ msg)))) (
    line r.date (
      line (codes "Server: vUbercool/" ++ (decimal major ++ (b'.' ∷ decimal minor))) (
        line (codes "Content-Length: " ++ decimal size) (
          line (codes "Content-Type: text/html; charset=utf-8")
            (encoding_line r.compression_type (connection_lines r.close_on_reply crlf))))))

pub is_head : Method → Bool
is_head head = true
is_head _ = false

module _ (compress : Encoding → Bytes → Bytes) (format_date : ℕ → Bytes) where
  -- `body_str_` when `body_` is flushed.
  unfoldable pub encoded : Option Encoding → Bytes → Bytes
  encoded none out = out
  encoded (some e) out = compress e out

  -- The date of the header: `last_time` is never set, and stays zero.
  update_date : CurrentReply → CurrentReply
  update_date r = record r { date = if r.now == 0 then r.date else format_date r.now }

  -- The end of `DoReply`.
  set_buffers : CurrentReply → Bytes → Bytes → Bool → CurrentReply
  set_buffers r header body without_body = record r {
    buffers = header ∷ (if without_body then [] else body ∷ []);
    bytes_in_reply = r.bytes_in_reply + length header + (if without_body then 0 else length body);
  }

  unfoldable pub do_reply : ℕ → Bytes → HttpRequest → CurrentReply → CurrentReply
  unfolding encoded update_date header_text set_buffers is_head
  do_reply code msg req r =
      let body = encoded r.compression_type r.out in
      let r1 = update_date r in
      set_buffers r1 (header_text r1 (http_version_name req.version) code (length body) msg) body
        (is_head req.method)

  -- `Reply`.
  unfoldable pub reply : ℕ → HttpRequest → CurrentReply → CurrentReply
  unfolding do_reply
  reply code req r = do_reply code (codes "OK") req (record r { close_on_reply = is_closing req })

  -- `ReplyWithError`, at the time `now`.
  unfoldable pub reply_with_error : ℕ → ℕ → Bytes → HttpRequest → CurrentReply → CurrentReply
  unfolding do_reply prepare
  reply_with_error now code content req r =
      let r1 = prepare now req default_config (record r { close_on_reply = true }) in
      do_reply code content req (record r1 { out = r1.out ++ content })

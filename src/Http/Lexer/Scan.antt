-- ===== src/Http/Lexer/Scan.antt =====
-- Single tokens of `HeaderLexer` (src/httpd/HttpRequestParser.h).
use v_ubercool.Base.{◌≡◌, refl, Bool, true, false, some, ◌∷◌, ◌++◌, Bytes, codes, if◌then◌else◌}
use v_ubercool.Http.Request.{
  Method, get, options, head, post, put, delete, trace, connect, method_name,
}
use v_ubercool.Http.Parser.{
  Token, http_1_0, http_1_1, crlf, blank, column, comma, h_host, h_dnt, h_accept_encoding, dnt_on,
  dnt_off, accept_encoding_gzip, accept_encoding_deflate,
}
use v_ubercool.Http.Parser.RoundTrip.Message.{method_token}
use v_ubercool.Http.Lexer.{
  LexerState, initial, uri_state, http_version, header_name, header_content, header_dnt,
  accept_encoding, next_token,
}

-- A step of the lexer.
abbrev pub Reads : LexerState → Bytes → Token → LexerState → Bytes → Type 0
Reads s text t s' rest =
    next_token s text ≡ some (record { token_of = t; state_after = s'; text_after = rest })

pub scan_method :
    (m : Method) (rest : Bytes)
    → Reads initial (method_name m ++ 32 ∷ rest) (method_token m) initial (32 ∷ rest)
unfolding next_token method_name
scan_method get rest = refl
scan_method options rest = refl
scan_method head rest = refl
scan_method post rest = refl
scan_method put rest = refl
scan_method delete rest = refl
scan_method trace rest = refl
scan_method connect rest = refl
scan_method Method.unknown rest = refl

pub scan_method_blank : (rest : Bytes) → Reads initial (32 ∷ rest) blank uri_state rest
unfolding next_token
scan_method_blank rest = refl

pub scan_uri_blank : (rest : Bytes) → Reads uri_state (32 ∷ rest) blank http_version rest
unfolding next_token
scan_uri_blank rest = refl

pub scan_version :
    (is_1_0 : Bool) (rest : Bytes)
    → Reads http_version
        ((if is_1_0 then codes "HTTP/1.0" else codes "HTTP/1.1") ++ 13 ∷ rest)
        (if is_1_0 then http_1_0 else http_1_1)
        http_version
        (13 ∷ rest)
unfolding next_token
scan_version true rest = refl
scan_version false rest = refl

pub scan_version_crlf : (rest : Bytes) → Reads http_version (13 ∷ 10 ∷ rest) crlf header_name rest
unfolding next_token
scan_version_crlf rest = refl

pub scan_last_crlf : (rest : Bytes) → Reads header_name (13 ∷ 10 ∷ rest) crlf header_name rest
unfolding next_token
scan_last_crlf rest = refl

pub scan_host :
    (rest : Bytes) → Reads header_name (codes "Host" ++ 58 ∷ rest) h_host header_name (58 ∷ rest)
unfolding next_token
scan_host rest = refl

pub scan_column : (rest : Bytes) → Reads header_name (58 ∷ rest) column header_content rest
unfolding next_token
scan_column rest = refl

pub scan_dnt : (rest : Bytes) → Reads header_name (codes "DNT:" ++ rest) h_dnt header_dnt rest
unfolding next_token
scan_dnt rest = refl

pub scan_encodings :
    (rest : Bytes)
    → Reads header_name (codes "Accept-Encoding:" ++ rest) h_accept_encoding accept_encoding rest
unfolding next_token
scan_encodings rest = refl

pub scan_content_blank : (rest : Bytes) → Reads header_content (32 ∷ rest) blank header_content rest
unfolding next_token
scan_content_blank rest = refl

pub scan_dnt_blank : (rest : Bytes) → Reads header_dnt (32 ∷ rest) blank header_dnt rest
unfolding next_token
scan_dnt_blank rest = refl

pub scan_dnt_crlf : (rest : Bytes) → Reads header_dnt (13 ∷ 10 ∷ rest) crlf header_name rest
unfolding next_token
scan_dnt_crlf rest = refl

pub scan_encoding_blank :
    (rest : Bytes) → Reads accept_encoding (32 ∷ rest) blank accept_encoding rest
unfolding next_token
scan_encoding_blank rest = refl

pub scan_comma : (rest : Bytes) → Reads accept_encoding (44 ∷ rest) comma accept_encoding rest
unfolding next_token
scan_comma rest = refl

pub scan_encoding_crlf :
    (rest : Bytes) → Reads accept_encoding (13 ∷ 10 ∷ rest) crlf header_name rest
unfolding next_token
scan_encoding_crlf rest = refl

pub scan_gzip :
    (rest : Bytes)
    → Reads accept_encoding (codes "gzip" ++ rest) accept_encoding_gzip accept_encoding rest
unfolding next_token
scan_gzip rest = refl

pub scan_deflate :
    (rest : Bytes)
    → Reads accept_encoding (codes "deflate" ++ rest) accept_encoding_deflate accept_encoding rest
unfolding next_token
scan_deflate rest = refl

pub scan_dnt_value :
    (on : Bool) (rest : Bytes)
    → Reads header_dnt
        ((if on then 49 else 48) ∷ rest)
        (if on then dnt_on else dnt_off)
        header_dnt
        rest
unfolding next_token
scan_dnt_value true rest = refl
scan_dnt_value false rest = refl

-- ===== src/Http/Lexer/Tests.antt =====
-- Requests for src/httpd/HttpRequestParser.h, as octets.
use v_ubercool.Base.{
  ℕ, ◌-◌, ◌%◌, ◌^◌, ◌≡◌, refl, true, false, none, some, [], ◌∷◌, ◌++◌, Bytes, codes, length, All,
  arith,
}
use v_ubercool.Http.Request.{get}
use v_ubercool.Http.Parser.{Token, m_get, blank, uri, crlf, h_host, column, str, parse_http_request}
use v_ubercool.Http.Parser.RoundTrip.Fields.{gzip}
use v_ubercool.Http.Lexer.{is_blank, is_letter, is_text, is_digit, is_name, same_letter, lexed}
use v_ubercool.Http.Lexer.Lexes.{tokens_behind}
use v_ubercool.Http.Lexer.Names.{IsOther}
use v_ubercool.Http.Lexer.Octets.{
  Part, host, dnt, encodings, any, Written, written_octets, open_octets, cut_octets, IsPart,
  IsWritten,
}
use v_ubercool.Http.Lexer.Requests.{
  understood, parse_http_request-written, parse_http_request-strange,
}

abbrev part : Part
part = record { blanks = 1; coding = gzip; letter = 0; qvalues = (48, 53) ∷ []; commas = 1 }

-- GET /a HTTP/1.1, with four fields.
abbrev written : Written
written = record {
  method = get;
  target = codes "/a";
  is_1_0 = false;
  lines =
      host 1 (codes "x.y") 0
      ∷ dnt 1 true 0
      ∷ encodings (part ∷ []) 0
      ∷ any (codes "Hosts") 1 (codes "b") ((1, codes "c") ∷ []) 1
      ∷ [];
}

hosts-IsOther : IsOther (codes "Hosts")
unfolding is_name same_letter
hosts-IsOther = record {
  named = (refl, (refl, (refl, (refl, (refl, tt)))));
  no_host = refl;
  no_dnt = refl;
  no_encodings = refl;
}

written-IsWritten : IsWritten written
unfolding is_text is_digit
written-IsWritten = record {
  has_target = (refl, (refl, tt));
  has_lines = (
    (refl, (refl, (refl, tt))),
    (
      tt,
      (
        ((tt, ((refl, refl), tt)), tt),
        ((hosts-IsOther, (refl, tt), ((omega arith, (refl, tt)), tt)), tt),
      ),
    ),
  );
}

-- The tokens of a shorter one, by a run of the lexer.
lexed_run :
    lexed (codes "GET /a HTTP/1.0" ++ 13 ∷ 10 ∷ (codes "Host: x" ++ 13 ∷ 10 ∷ 13 ∷ 10 ∷ []))
    ≡ m_get
      ∷ blank
      ∷ uri (codes "/a")
      ∷ blank
      ∷ Token.http_1_0
      ∷ crlf
      ∷ h_host
      ∷ column
      ∷ blank
      ∷ str (codes "x")
      ∷ crlf
      ∷ crlf
      ∷ []
unfolding lexed
lexed_run = refl

abbrev scanned : Bytes → ℕ → ℕ
scanned buffer n = length buffer

abbrev buffer : Bytes
buffer = written_octets written []

parse_http_request-written_example :
    parse_http_request lexed scanned buffer
    ≡ some (record (understood written) {
      request_length = scanned buffer (length (lexed buffer) - length (tokens_behind [])) % 2 ^ 32;
    })
parse_http_request-written_example =
    parse_http_request-written lexed scanned written [] (λ text. refl) written-IsWritten

parts-IsPart : All IsPart (part ∷ [])
unfolding is_digit
parts-IsPart = ((tt, ((refl, refl), tt)), tt)

-- The last field ends with ", *".
parse_http_request-strange_example :
    parse_http_request lexed scanned (open_octets written (cut_octets (part ∷ []) 1 42 [])) ≡ none
unfolding is_blank is_letter
parse_http_request-strange_example =
    parse_http_request-strange lexed scanned written (part ∷ []) 1 42 [] (λ text. refl)
      written-IsWritten parts-IsPart refl

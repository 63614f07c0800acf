-- ===== src/Http/Lexer/Requests.antt =====
-- `HttpRequestParser::Parse` (src/httpd/HttpRequestParser.h) on the octets of a request.
use v_ubercool.Base.{ℕ, ◌-◌, ◌%◌, ◌^◌, ◌≡◌, ◌∙◌, some, none, List, Bytes, length, true, All}
use v_ubercool.Http.Request.{HttpRequest}
use v_ubercool.Http.Parser.{Token, parse_http_request}
use v_ubercool.Http.Parser.RoundTrip.Fields.{note_fields}
use v_ubercool.Http.Parser.RoundTrip.Message.{
  first_line, start-message_tokens, parse_http_request-some, parse_http_request-none,
  start-cut_encodings,
}
use v_ubercool.Http.Lexer.{lexed}
use v_ubercool.Http.Lexer.Texts.{is_strange}
use v_ubercool.Http.Lexer.Lexes.{tokens_behind, tokens_behind-Lexes, Lexes-lexed}
use v_ubercool.Http.Lexer.Octets.{
  Written, Part, IsPart, open_octets, cut_octets, items_of, written_octets, IsWritten, message_of,
  fields_of,
}
use v_ubercool.Http.Lexer.Lines.{Lexes-written, Lexes-cut}

-- A lexer that keeps to the rules: it makes the tokens of the longest matches.
abbrev pub IsLexertl : (Bytes → List Token) → Type 0
IsLexertl tokenize = (buffer : Bytes) → tokenize buffer ≡ lexed buffer

-- What the server is to understand.
abbrev pub understood : Written → HttpRequest
understood w = note_fields (fields_of w.lines) (first_line (message_of w))

-- If the lexer keeps to its rules, the parser reads, octet for octet, a request of a method that it knows,
-- of HTTP/1.0 or 1.1, with a target of one octet or more and none of them white space, with header
-- fields in any order, any blanks in front of their values and behind them, and anything behind the
-- request. The fields are Host with a name without white space, DNT with 0 or 1, Accept-Encoding with
-- any number of gzip, deflate and single other letters but g and d, with qvalues of two digits and any
-- commas behind them, and fields of other names, made of digits, letters, '_' and '-', with one word
-- or more without white space. Tabs, folded lines and empty values of these are not such. The request
-- has the method, the target and the version written, the name of the last host field, and the
-- wishes of the other fields, and its length is what the lexer has read of the buffer.
pub parse_http_request-written :
    (tokenize : Bytes → List Token) (scanned : Bytes → ℕ → ℕ) (w : Written) (rest : Bytes)
    → IsLexertl tokenize
    → IsWritten w
    → let buffer = written_octets w rest in
      parse_http_request tokenize scanned buffer
      ≡ some (record (understood w) {
        request_length =
            scanned buffer (length (tokenize buffer) - length (tokens_behind rest)) % 2 ^ 32;
      })
parse_http_request-written tokenize scanned w rest lexes h =
    let buffer = written_octets w rest in
    parse_http_request-some tokenize scanned buffer
      (lexes buffer ∙ Lexes-lexed (Lexes-written w rest h (tokens_behind-Lexes rest)))
      (start-message_tokens (message_of w) (tokens_behind rest))

-- If the lexer keeps to its rules, a request is refused if its accept-encoding header has, behind
-- well-formed encodings, an octet that is no letter, blank, comma, semicolon or carriage return, such
-- as the '*' that HTTP allows there: whatever the lines above it and whatever follows.
pub parse_http_request-strange :
    (tokenize : Bytes → List Token) (scanned : Bytes → ℕ → ℕ) (w : Written) (ps : List Part)
    (k c : ℕ) (rest : Bytes)
    → IsLexertl tokenize
    → IsWritten w
    → All IsPart ps
    → is_strange c ≡ true
    → parse_http_request tokenize scanned (open_octets w (cut_octets ps k c rest)) ≡ none
parse_http_request-strange tokenize scanned w ps k c rest lexes h parts strange =
    parse_http_request-none tokenize scanned (open_octets w (cut_octets ps k c rest))
      (lexes _ ∙ Lexes-lexed (Lexes-cut w ps k c rest h parts strange))
      (start-cut_encodings (message_of w) (items_of ps) k)

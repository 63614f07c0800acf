-- ===== src/Http/Parser/Length.antt =====
-- What the request parser (src/httpd/HttpRequestParser.h) takes of a buffer.
use v_ubercool.Base.{ℕ, ◌-◌, ◌≤◌, ◌<◌, ◌≡◌, ◌%◌, ◌^◌, none, some, List, Bytes, length, arith}
use v_ubercool.Http.Request.{HttpRequest, no_request}
use v_ubercool.Http.Session.{buffer_size}
use v_ubercool.Http.Session.Buffer.{IsParser, IsTaken}
use v_ubercool.Http.Parser.{
  Token, Match, token, star, one_h_host, one_column, one_host, one_h_dnt, one_dnt_value,
  one_h_accept_encoding, one_encoding, one_qvalue, one_comma, one_str, one_h_any, one_method,
  one_uri, one_version, ws, crlf_rule, hv_crlf, host_hdr, dnt_hdr, encoding_item,
  accept_encoding_hdr, word, any_hdr, header, request, start, parsed_request, parse_http_request,
}
use v_ubercool.Http.Parser.Rules.{
  Takes, TakesAll, token-TakesAll, seq-TakesAll, alt-TakesAll, star-TakesAll, forget-TakesAll,
  weaken-Takes, Stops, star-Stops,
}

ws-TakesAll : TakesAll 1 ws
unfolding ws
ws-TakesAll = token-TakesAll _

blanks-TakesAll : TakesAll 0 (star ws)
blanks-TakesAll = star-TakesAll ws (forget-TakesAll 1 ws ws-TakesAll)

crlf_rule-TakesAll : TakesAll 1 crlf_rule
unfolding crlf_rule
crlf_rule-TakesAll = token-TakesAll _

hv_crlf-TakesAll : TakesAll 1 hv_crlf
unfolding hv_crlf
hv_crlf-TakesAll = seq-TakesAll 0 1 (star ws) crlf_rule blanks-TakesAll crlf_rule-TakesAll

host_hdr-TakesAll : TakesAll 4 host_hdr
unfolding host_hdr
host_hdr-TakesAll = seq-TakesAll 1 3 _ _ (token-TakesAll one_h_host) (
    seq-TakesAll 1 2 _ _ (token-TakesAll one_column) (
      seq-TakesAll 0 2 _ _ blanks-TakesAll
        (seq-TakesAll 1 1 _ _ (token-TakesAll one_host) hv_crlf-TakesAll)))

dnt_hdr-TakesAll : TakesAll 3 dnt_hdr
unfolding dnt_hdr
dnt_hdr-TakesAll = seq-TakesAll 1 2 _ _ (token-TakesAll one_h_dnt) (
    seq-TakesAll 0 2 _ _ blanks-TakesAll
      (seq-TakesAll 1 1 _ _ (token-TakesAll one_dnt_value) hv_crlf-TakesAll))

pub encoding_item-TakesAll : TakesAll 1 encoding_item
unfolding encoding_item
encoding_item-TakesAll = seq-TakesAll 0 1 _ _ blanks-TakesAll (
    seq-TakesAll 1 0 _ _ (token-TakesAll one_encoding) (
      seq-TakesAll 0 0 _ _ (star-TakesAll _ (forget-TakesAll 1 _ (token-TakesAll one_qvalue)))
        (star-TakesAll _ (forget-TakesAll 1 _ (token-TakesAll one_comma)))))

accept_encoding_hdr-TakesAll : TakesAll 2 accept_encoding_hdr
unfolding accept_encoding_hdr
accept_encoding_hdr-TakesAll = seq-TakesAll 1 1 _ _ (token-TakesAll one_h_accept_encoding) (
    seq-TakesAll 0 1 _ _
      (star-TakesAll encoding_item (forget-TakesAll 1 encoding_item encoding_item-TakesAll))
      hv_crlf-TakesAll)

pub word-TakesAll : TakesAll 1 word
unfolding word
word-TakesAll = seq-TakesAll 0 1 _ _ blanks-TakesAll (token-TakesAll one_str)

any_hdr-TakesAll : TakesAll 4 any_hdr
unfolding any_hdr
any_hdr-TakesAll = seq-TakesAll 1 3 _ _ (token-TakesAll one_h_any) (
    seq-TakesAll 1 2 _ _ (token-TakesAll one_column) (
      seq-TakesAll 1 1 _ _ word-TakesAll (
        seq-TakesAll 0 1 _ _ (star-TakesAll word (forget-TakesAll 1 word word-TakesAll))
          hv_crlf-TakesAll)))

pub header-TakesAll : TakesAll 1 header
unfolding header
header-TakesAll =
    alt-TakesAll 1 _ _ (λ ts req. weaken-Takes 4 1 ts ts _ (host_hdr-TakesAll ts req) (omega arith))
      (alt-TakesAll 1 _ _
        (λ ts req. weaken-Takes 3 1 ts ts _ (dnt_hdr-TakesAll ts req) (omega arith))
        (alt-TakesAll 1 _ _
          (λ ts req. weaken-Takes 2 1 ts ts _ (accept_encoding_hdr-TakesAll ts req) (omega arith))
          (λ ts req. weaken-Takes 4 1 ts ts _ (any_hdr-TakesAll ts req) (omega arith))))

request-TakesAll : TakesAll 6 request
unfolding request
request-TakesAll = seq-TakesAll 1 5 _ _ (token-TakesAll one_method) (
    seq-TakesAll 1 4 _ _ ws-TakesAll (
      seq-TakesAll 1 3 _ _ (token-TakesAll one_uri) (
        seq-TakesAll 1 2 _ _ ws-TakesAll
          (seq-TakesAll 1 1 _ _ (token-TakesAll one_version) crlf_rule-TakesAll))))

start-TakesAll : TakesAll 7 start
unfolding start
start-TakesAll = seq-TakesAll 6 1 request _ request-TakesAll (
    seq-TakesAll 0 1 _ _ (star-TakesAll header (forget-TakesAll 1 header header-TakesAll))
      crlf_rule-TakesAll)

-- The repetitions of the grammar, with one round more than there are tokens, go on until their rule
-- fails on what is left: the blanks, the q-values and commas of an encoding, the encodings, the words
-- of a header, and the headers.
pub repetitions-Stops :
    (ts : List Token) (req : HttpRequest)
    → Stops ws (star ws ts req)
      × Stops (token one_qvalue) (star (token one_qvalue) ts req)
      × Stops (token one_comma) (star (token one_comma) ts req)
      × Stops encoding_item (star encoding_item ts req)
      × Stops word (star word ts req)
      × Stops header (star header ts req)
repetitions-Stops ts req = (
  star-Stops ws ts req ws-TakesAll,
  star-Stops _ ts req (token-TakesAll one_qvalue),
  star-Stops _ ts req (token-TakesAll one_comma),
  star-Stops encoding_item ts req encoding_item-TakesAll,
  star-Stops word ts req word-TakesAll,
  star-Stops header ts req header-TakesAll,
)

-- What is relied on of the lexer: as many tokens as the grammar has taken stand for some octets of the
-- buffer.
unfoldable pub IsLexer : (Bytes → List Token) → (Bytes → ℕ → ℕ) → Type 0
IsLexer tokenize scanned =
    (buffer : Bytes) (n : ℕ)
    → 0 < n
    → n ≤ length (tokenize buffer)
    → (0 < scanned buffer n) × (scanned buffer n ≤ length buffer)

parsed_request-IsTaken :
    (tokenize : Bytes → List Token) (scanned : Bytes → ℕ → ℕ) (buffer : Bytes) (m : Match)
    (req : HttpRequest)
    → IsLexer tokenize scanned
    → length buffer ≤ buffer_size
    → Takes 7 (tokenize buffer) m
    → parsed_request tokenize scanned buffer m ≡ some req
    → IsTaken req buffer
unfolding parsed_request IsLexer Takes
parsed_request-IsTaken tokenize scanned buffer (none, r) req c h t e = cc
parsed_request-IsTaken tokenize scanned buffer (some rest, r) req c h t e =
    let n = length (tokenize buffer) - length rest in
    let (above, below) = c buffer n (omega (arith, t)) (omega arith) in
    let size : scanned buffer n % 2 ^ 32 ≡ req.request_length = ground arith in
    (omega (arith, above, below, h, size), omega (arith, above, below, h, size))

-- The request parser keeps what a connection relies on: a request that it accepts has taken an octet
-- or more, and none that is not in the buffer; if the lexer, which is not part of the program, reads
-- some of the buffer's octets for the tokens that the grammar takes.
pub parse_http_request-IsParser :
    (tokenize : Bytes → List Token) (scanned : Bytes → ℕ → ℕ)
    → IsLexer tokenize scanned
    → IsParser (parse_http_request tokenize scanned)
unfolding IsParser parse_http_request
parse_http_request-IsParser tokenize scanned c buffer req h e =
    parsed_request-IsTaken tokenize scanned buffer (start (tokenize buffer) no_request) req c h
      (start-TakesAll (tokenize buffer) no_request) e

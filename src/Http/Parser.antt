-- ===== src/Http/Parser.antt =====
-- The grammar of requests (src/httpd/HttpRequestParser.h) and `ParseHttpRequest`
-- (src/httpd/ParseHttpRequest.cpp). The tokens that the lexer of boost::spirit makes of a buffer, and
-- how many octets it has read when the grammar has taken some of them, are parameters. A rule of
-- boost::spirit::qi that fails gives the tokens back, but what its actions have done stays.
pub mod Rules
pub mod RoundTrip
pub mod Length
use v_ubercool.Base.{
  ℕ, zero, suc, ◌-◌, ◌%◌, ◌^◌, true, Option, none, some, List, [], ◌∷◌, Bytes, length,
}
use v_ubercool.Http.Request.{
  Version, Method, get, options, head, post, put, delete, trace, connect, HttpRequest, no_request,
}

-- The tokens of `HeaderLexer`, told apart by their ids: `blank` is ' ', `column` is ':' and `comma` is ','.
pub data Token : Type 0 where
  m_get m_options m_head m_post m_put m_delete m_trace m_connect m_any : Token
  uri str : Bytes → Token
  http_1_0 http_1_1 crlf blank column comma : Token
  h_host h_dnt h_accept_encoding h_any dnt_on dnt_off : Token
  accept_encoding_gzip accept_encoding_deflate accept_encoding_other accept_encoding_qvalue : Token

-- What a rule leaves: the tokens behind its match, or none if it fails, and the request.
abbrev pub Match : Type 0
Match = Option (List Token) × HttpRequest

abbrev pub Rule : Type 0
Rule = List Token → HttpRequest → Match

-- One token, with its action.
pub take_one : Option (HttpRequest → HttpRequest) → List Token → HttpRequest → Match
take_one none ts req = (none, req)
take_one (some act) ts req = (some ts, act req)

pub token : (Token → Option (HttpRequest → HttpRequest)) → Rule
unfolding take_one
token act [] req = (none, req)
token act (t ∷ ts) req = take_one (act t) ts req

-- `p >> q`.
pub seq_after : Rule → Match → Match
seq_after q (none, req) = (none, req)
seq_after q (some ts, req) = q ts req

infixr 20 ◌>>◌
pub ◌>>◌ : Rule → Rule → Rule
unfolding seq_after
(p >> q) ts req = seq_after q (p ts req)

-- `p | q`.
pub alt_after : Rule → List Token → Match → Match
alt_after q ts (none, req) = q ts req
alt_after q ts (some rest, req) = (some rest, req)

infixr 15 ◌<|>◌
pub ◌<|>◌ : Rule → Rule → Rule
unfolding alt_after
(p <|> q) ts req = alt_after q ts (p ts req)

-- `*p`, with one round more than there are tokens.
pub many_after : Rule → List Token → Match → Match
many_after again ts (none, req) = (some ts, req)
many_after again ts (some rest, req) = again rest req

pub many : ℕ → Rule → Rule
unfolding many_after
many zero p ts req = (some ts, req)
many (suc n) p ts req = many_after (many n p) ts (p ts req)

pub star : Rule → Rule
unfolding many
star p ts req = many (suc (length ts)) p ts req

-- The tokens without an action.
keep : Option (HttpRequest → HttpRequest)
keep = some (λ req. req)

pub one_blank : Token → Option (HttpRequest → HttpRequest)
unfolding keep
one_blank blank = keep
one_blank _ = none

one_crlf : Token → Option (HttpRequest → HttpRequest)
unfolding keep
one_crlf crlf = keep
one_crlf _ = none

one_column : Token → Option (HttpRequest → HttpRequest)
unfolding keep
one_column column = keep
one_column _ = none

pub one_comma : Token → Option (HttpRequest → HttpRequest)
unfolding keep
one_comma comma = keep
one_comma _ = none

pub one_qvalue : Token → Option (HttpRequest → HttpRequest)
unfolding keep
one_qvalue accept_encoding_qvalue = keep
one_qvalue _ = none

one_h_host : Token → Option (HttpRequest → HttpRequest)
unfolding keep
one_h_host h_host = keep
one_h_host _ = none

one_h_dnt : Token → Option (HttpRequest → HttpRequest)
unfolding keep
one_h_dnt h_dnt = keep
one_h_dnt _ = none

one_h_accept_encoding : Token → Option (HttpRequest → HttpRequest)
unfolding keep
one_h_accept_encoding h_accept_encoding = keep
one_h_accept_encoding _ = none

one_h_any : Token → Option (HttpRequest → HttpRequest)
unfolding keep
one_h_any h_any = keep
one_h_any _ = none

one_str : Token → Option (HttpRequest → HttpRequest)
unfolding keep
one_str (str text) = keep
one_str _ = none

-- The tokens with one. The tokens of an alternative have different ids, so that one test of the token
-- decides.
one_host : Token → Option (HttpRequest → HttpRequest)
one_host (str text) = some (λ req. record req { host = text })
one_host _ = none

one_uri : Token → Option (HttpRequest → HttpRequest)
one_uri (uri text) = some (λ req. record req { uri = text })
one_uri _ = none

set_method : Method → Option (HttpRequest → HttpRequest)
set_method m = some (λ req. record req { method = m })

one_method : Token → Option (HttpRequest → HttpRequest)
unfolding keep set_method
one_method m_get = set_method get
one_method m_options = set_method options
one_method m_head = set_method head
one_method m_post = set_method post
one_method m_put = set_method put
one_method m_delete = set_method delete
one_method m_trace = set_method trace
one_method m_connect = set_method connect
one_method m_any = keep
one_method _ = none

one_version : Token → Option (HttpRequest → HttpRequest)
one_version Token.http_1_0 = some (λ req. record req { version = Version.http_1_0 })
one_version Token.http_1_1 = some (λ req. record req { version = Version.http_1_1 })
one_version _ = none

one_dnt_value : Token → Option (HttpRequest → HttpRequest)
unfolding keep
one_dnt_value dnt_on = some (λ req. record req { do_not_track = true })
one_dnt_value dnt_off = keep
one_dnt_value _ = none

one_encoding : Token → Option (HttpRequest → HttpRequest)
unfolding keep
one_encoding Token.accept_encoding_gzip = some (λ req. record req { accept_encoding_gzip = true })
one_encoding Token.accept_encoding_deflate =
    some (λ req. record req { accept_encoding_deflate = true })
one_encoding accept_encoding_other = keep
one_encoding _ = none

-- The rules, with the names of the source.
pub ws : Rule
ws = token one_blank

pub crlf_rule : Rule
crlf_rule = token one_crlf

pub hv_crlf : Rule
hv_crlf = star ws >> crlf_rule

pub host_hdr : Rule
host_hdr = token one_h_host >> token one_column >> star ws >> token one_host >> hv_crlf

pub dnt_hdr : Rule
dnt_hdr = token one_h_dnt >> star ws >> token one_dnt_value >> hv_crlf

-- One value of an accept-encoding header.
pub encoding_item : Rule
encoding_item = star ws >> token one_encoding >> star (token one_qvalue) >> star (token one_comma)

pub accept_encoding_hdr : Rule
accept_encoding_hdr = token one_h_accept_encoding >> star encoding_item >> hv_crlf

-- `*ws_ >> str_`, and `+` of it.
pub word : Rule
word = star ws >> token one_str

pub any_hdr : Rule
any_hdr = token one_h_any >> token one_column >> word >> star word >> hv_crlf

pub header : Rule
header = host_hdr <|> dnt_hdr <|> accept_encoding_hdr <|> any_hdr

pub request : Rule
request = token one_method >> ws >> token one_uri >> ws >> token one_version >> crlf_rule

pub start : Rule
start = request >> star header >> crlf_rule

-- `HttpRequestParser::Parse`, from a request that has been reset: the request, if there is one.
module _ (tokenize : Bytes → List Token) (scanned : Bytes → ℕ → ℕ) where
  parsed_request : Bytes → Match → Option HttpRequest
  parsed_request buffer (none, req) = none
  parsed_request buffer (some rest, req) = some (record req {
    request_length = scanned buffer (length (tokenize buffer) - length rest) % 2 ^ 32;
  })

  pub parse_http_request : Bytes → Option HttpRequest
  unfolding parsed_request start
  parse_http_request buffer = parsed_request buffer (start (tokenize buffer) no_request)

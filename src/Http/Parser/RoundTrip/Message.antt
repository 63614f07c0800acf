-- ===== src/Http/Parser/RoundTrip/Message.antt =====
-- A whole request (src/httpd/HttpRequestParser.h), written and read.
use v_ubercool.Base.{
  ℕ, ◌-◌, ◌%◌, ◌^◌, ◌≡◌, refl, ap, ◌∙◌, Bool, true, false, none, some, List, [], ◌∷◌, Bytes, length,
}
use v_ubercool.Http.Request.{
  Version, Method, get, options, head, post, put, delete, trace, connect, HttpRequest, no_request,
}
use v_ubercool.Http.Parser.{
  crlf_rule, h_any, h_accept_encoding, column, one_crlf, Token, m_get, m_options, m_head, m_post,
  m_put, m_delete, m_trace, m_connect, m_any, blank, crlf, uri, take_one, token, star, keep,
  set_method, one_uri, one_method, one_version, ws, header, request, start, parsed_request,
  parse_http_request,
}
use v_ubercool.Http.Parser.RoundTrip.{repeated, seq_some, ws_blank, take_crlf}
use v_ubercool.Http.Parser.RoundTrip.Headers.{
  read_fields, read_fields_until, no_field, empty_value, cut_encodings,
}
use v_ubercool.Http.Parser.RoundTrip.Fields.{
  Item, items_tokens, note_items, line_end, Field, fields_tokens, note_fields,
}

-- A request as a client writes it: a method, where `unknown` stands for one that the grammar does not
-- know, HTTP/1.0 or HTTP/1.1, and header fields.
pub record Message : Type 0 where
  pub method : Method
  pub target : Bytes
  pub is_1_0 : Bool
  pub fields : List Field

abbrev pub method_token : Method → Token
method_token get = m_get
method_token options = m_options
method_token head = m_head
method_token post = m_post
method_token put = m_put
method_token delete = m_delete
method_token trace = m_trace
method_token connect = m_connect
method_token Method.unknown = m_any

abbrev pub version_token : Bool → Token
version_token true = Token.http_1_0
version_token false = Token.http_1_1

abbrev pub version_of : Bool → Version
version_of true = Version.http_1_0
version_of false = Version.http_1_1

-- Its first line and fields, before what comes behind them.
abbrev pub open_tokens : Message → List Token → List Token
open_tokens m ts =
    method_token m.method
    ∷ blank
    ∷ uri m.target
    ∷ blank
    ∷ version_token m.is_1_0
    ∷ crlf
    ∷ fields_tokens m.fields ts

abbrev pub message_tokens : Message → List Token → List Token
message_tokens m ts = open_tokens m (crlf ∷ ts)

abbrev pub first_line : Message → HttpRequest
first_line m = record no_request {
  method = m.method;
  uri = m.target;
  version = version_of m.is_1_0;
}

take_method :
    (m : Method) (ts : List Token)
    → token one_method (method_token m ∷ ts) no_request
      ≡ (some ts, record no_request { method = m })
unfolding token one_method take_one keep set_method
take_method get ts = refl
take_method options ts = refl
take_method head ts = refl
take_method post ts = refl
take_method put ts = refl
take_method delete ts = refl
take_method trace ts = refl
take_method connect ts = refl
take_method Method.unknown ts = refl

take_uri :
    (target : Bytes) (ts : List Token) (req : HttpRequest)
    → token one_uri (uri target ∷ ts) req ≡ (some ts, record req { uri = target })
unfolding token one_uri take_one
take_uri target ts req = refl

take_version :
    (is_1_0 : Bool) (ts : List Token) (req : HttpRequest)
    → token one_version (version_token is_1_0 ∷ ts) req
      ≡ (some ts, record req { version = version_of is_1_0 })
unfolding token one_version take_one
take_version true ts req = refl
take_version false ts req = refl

read_request :
    (m : Message) (ts : List Token)
    → request (open_tokens m ts) no_request ≡ (some (fields_tokens m.fields ts), first_line m)
unfolding request
read_request m ts =
    let req1 = record no_request { method = m.method } in
    let req2 = record req1 { uri = m.target } in
    seq_some (token one_method) _ (take_method m.method _)
    ∙ seq_some ws _ (ws_blank _ req1)
    ∙ seq_some (token one_uri) _ (take_uri m.target _ req1)
    ∙ seq_some ws _ (ws_blank _ req2)
    ∙ seq_some (token one_version) _ (take_version m.is_1_0 _ req2)
    ∙ take_crlf _ (first_line m)

-- The grammar reads any request that a client may write, with any header fields in any order and any
-- blanks, and stops behind it: the request has the method, the target and the version written, the
-- name of the last host field, and the wishes of the other fields.
pub start-message_tokens :
    (m : Message) (ts : List Token)
    → start (message_tokens m ts) no_request ≡ (some ts, note_fields m.fields (first_line m))
unfolding start
start-message_tokens m ts =
    seq_some request _ (read_request m (crlf ∷ ts))
    ∙ seq_some (star header) _ (read_fields m.fields (crlf ∷ ts) (first_line m) (no_field ts))
    ∙ take_crlf ts (note_fields m.fields (first_line m))

field_no_crlf : (ts : List Token) (req : HttpRequest) → crlf_rule (h_any ∷ ts) req ≡ (none, req)
unfolding crlf_rule token one_crlf take_one
field_no_crlf ts req = refl

-- Behind any fields that it reads, a header field without a value makes the grammar fail, whatever is
-- behind it, if the lexer has none of the names Host, DNT and Accept-Encoding for it, so that the
-- request is refused.
pub start-empty_value :
    (m : Message) (k : ℕ) (ts : List Token)
    → start (open_tokens m (h_any ∷ column ∷ line_end k ts)) no_request
      ≡ (none, note_fields m.fields (first_line m))
unfolding start
start-empty_value m k ts =
    let rest = h_any ∷ column ∷ line_end k ts in
    seq_some request _ (read_request m rest)
    ∙ seq_some (star header) _ (read_fields m.fields rest (first_line m) (empty_value k ts))
    ∙ field_no_crlf (column ∷ line_end k ts) (note_fields m.fields (first_line m))

encodings_no_crlf :
    (ts : List Token) (req : HttpRequest) → crlf_rule (h_accept_encoding ∷ ts) req ≡ (none, req)
unfolding crlf_rule token one_crlf take_one
encodings_no_crlf ts req = refl

-- The grammar fails where the tokens end within the encodings that a client accepts.
pub start-cut_encodings :
    (m : Message) (is : List Item) (k : ℕ)
    → start (open_tokens m (h_accept_encoding ∷ items_tokens is (repeated blank k []))) no_request
      ≡ (none, note_items is (note_fields m.fields (first_line m)))
unfolding start
start-cut_encodings m is k =
    let rest = h_accept_encoding ∷ items_tokens is (repeated blank k []) in
    seq_some request _ (read_request m rest)
    ∙ seq_some (star header) _
        (read_fields_until (note_items is) m.fields rest (first_line m) (cut_encodings is k))
    ∙ encodings_no_crlf _ (note_items is (note_fields m.fields (first_line m)))

-- What the parser makes of tokens that the grammar takes.
pub parse_http_request-some :
    (tokenize : Bytes → List Token) (scanned : Bytes → ℕ → ℕ) (buffer : Bytes) {ts us : List Token}
    {req : HttpRequest}
    → tokenize buffer ≡ ts
    → start ts no_request ≡ (some us, req)
    → parse_http_request tokenize scanned buffer
      ≡ some (record req {
        request_length = scanned buffer (length (tokenize buffer) - length us) % 2 ^ 32;
      })
unfolding parse_http_request parsed_request
parse_http_request-some tokenize scanned buffer h k =
    ap (parsed_request tokenize scanned buffer) (ap (λ ts. start ts no_request) h ∙ k)

pub parse_http_request-none :
    (tokenize : Bytes → List Token) (scanned : Bytes → ℕ → ℕ) (buffer : Bytes) {ts : List Token}
    {req : HttpRequest}
    → tokenize buffer ≡ ts
    → start ts no_request ≡ (none, req)
    → parse_http_request tokenize scanned buffer ≡ none
unfolding parse_http_request parsed_request
parse_http_request-none tokenize scanned buffer h k =
    ap (parsed_request tokenize scanned buffer) (ap (λ ts. start ts no_request) h ∙ k)

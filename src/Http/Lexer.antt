-- ===== src/Http/Lexer.antt =====
-- `HeaderLexer` of src/httpd/HttpRequestParser.h: the patterns of its tokens and its states. A pattern
-- is a sequence of sets of octets, or a set one or more of whose octets are taken. How lexertl, the
-- lexer of boost::spirit, applies such rules is written down after its manual: the longest match
-- counts and, of those, the rule that stands first; where no rule matches there are no more tokens.
pub mod Scan
pub mod Best
pub mod Texts
pub mod Names
pub mod Lexes
pub mod Octets
pub mod Lines
pub mod Requests
mod Tests
use v_ubercool.Base.{
  ℕ, zero, suc, ◌+◌, Bool, true, false, not, ◌&&◌, ◌||◌, Option, none, some, List, [], ◌∷◌, ◌++◌,
  map, Bytes, codes, take, drop, length, ltb, leb, ◌==◌, if◌then◌else◌,
}
use v_ubercool.Http.Parser.{
  Token, m_get, m_options, m_head, m_post, m_put, m_delete, m_trace, m_connect, m_any, uri, str,
  http_1_0, http_1_1, crlf, blank, column, comma, h_host, h_dnt, h_accept_encoding, h_any, dnt_on,
  dnt_off, accept_encoding_gzip, accept_encoding_deflate, accept_encoding_other,
  accept_encoding_qvalue,
}

-- Sets of octets.
abbrev pub OctetSet : Type 0
OctetSet = ℕ → Bool

-- `\S`, the octets that are no white space.
unfoldable pub is_text : OctetSet
is_text c = not (c == 32 || leb 9 c && leb c 13)

unfoldable pub is_digit : OctetSet
is_digit c = leb 48 c && leb c 57

-- `[a-zA-Z]`.
unfoldable pub is_letter : OctetSet
is_letter c = leb 65 c && leb c 90 || leb 97 c && leb c 122

-- `[\w\-]`.
unfoldable pub is_name : OctetSet
unfolding is_letter is_digit
is_name c = is_letter c || is_digit c || c == 95 || c == 45

-- ` |\t`.
unfoldable pub is_blank : OctetSet
is_blank c = c == 32 || c == 9

unfoldable pub lower : ℕ → ℕ
lower c = if leb 65 c && leb c 90 then c + 32 else c

unfoldable pub same_letter : ℕ → OctetSet
unfolding lower
same_letter a c = lower c == lower a

pub data Pattern : Type 0 where
  exactly : List OctetSet → Pattern
  some_of : OctetSet → Pattern

abbrev pub literal : Bytes → List OctetSet
literal text = map (λ a c. c == a) text

-- `(?i:text)`.
abbrev pub no_case : Bytes → List OctetSet
no_case text = map same_letter text

-- The states of the lexer.
pub data LexerState : Type 0 where
  initial uri_state http_version header_name header_content header_dnt accept_encoding : LexerState

-- A rule of a state: a pattern, the token with the text matched, and the state that follows.
pub record LexerRule : Type 0 where
  pub pattern_of : Pattern
  pub to_token : Bytes → Token
  pub next_state : LexerState

pub rule : Pattern → Token → LexerState → LexerRule
rule p t s = record { pattern_of = p; to_token = λ text. t; next_state = s }

pub text_rule : OctetSet → (Bytes → Token) → LexerState → LexerRule
text_rule c t s = record { pattern_of = some_of c; to_token = t; next_state = s }

-- `\r\n`, and `\r\n `, a line that is continued.
abbrev pub end_of_line : Bytes
end_of_line = 13 ∷ 10 ∷ []

lws : Bytes
lws = 13 ∷ 10 ∷ 32 ∷ []

-- `;q=\d\.\d`.
qvalue : List OctetSet
qvalue = literal (codes ";q=") ++ is_digit ∷ literal (codes ".") ++ is_digit ∷ []

pub rules : LexerState → List LexerRule
unfolding rule text_rule lws qvalue is_digit is_letter is_name is_blank is_text same_letter
rules initial =
    rule (exactly (no_case (codes "GET"))) m_get initial
    ∷ rule (exactly (no_case (codes "OPTIONS"))) m_options initial
    ∷ rule (exactly (no_case (codes "HEAD"))) m_head initial
    ∷ rule (exactly (no_case (codes "POST"))) m_post initial
    ∷ rule (exactly (no_case (codes "PUT"))) m_put initial
    ∷ rule (exactly (no_case (codes "DELETE"))) m_delete initial
    ∷ rule (exactly (no_case (codes "TRACE"))) m_trace initial
    ∷ rule (exactly (no_case (codes "CONNECT"))) m_connect initial
    ∷ rule (some_of is_text) m_any initial
    ∷ rule (exactly (literal (codes " "))) blank uri_state
    ∷ []
rules uri_state =
    text_rule is_text uri uri_state ∷ rule (exactly (literal (codes " "))) blank http_version ∷ []
rules http_version =
    rule (exactly (no_case (codes "HTTP/1.0"))) http_1_0 http_version
    ∷ rule (exactly (no_case (codes "HTTP/1.1"))) http_1_1 http_version
    ∷ rule (exactly (literal end_of_line)) crlf header_name
    ∷ []
rules header_name =
    rule (exactly (literal end_of_line)) crlf header_name
    ∷ rule (exactly (no_case (codes "Host"))) h_host header_name
    ∷ rule (exactly (no_case (codes "Dnt:"))) h_dnt header_dnt
    ∷ rule (exactly (no_case (codes "Accept-Encoding:"))) h_accept_encoding accept_encoding
    ∷ rule (some_of is_name) h_any header_name
    ∷ rule (exactly (literal (codes ":"))) column header_content
    ∷ []
rules header_content =
    rule (exactly (literal lws)) blank header_content
    ∷ rule (exactly (is_blank ∷ [])) blank header_content
    ∷ text_rule is_text str header_content
    ∷ rule (exactly (literal end_of_line)) crlf header_name
    ∷ []
rules header_dnt =
    rule (exactly (is_blank ∷ [])) blank header_dnt
    ∷ rule (exactly (literal (codes "1"))) dnt_on header_dnt
    ∷ rule (exactly (literal (codes "0"))) dnt_off header_dnt
    ∷ rule (exactly (literal end_of_line)) crlf header_name
    ∷ []
rules accept_encoding =
    rule (exactly (is_blank ∷ [])) blank accept_encoding
    ∷ rule (exactly (literal (codes ","))) comma accept_encoding
    ∷ rule (exactly (no_case (codes "gzip"))) accept_encoding_gzip accept_encoding
    ∷ rule (exactly (no_case (codes "deflate"))) accept_encoding_deflate accept_encoding
    ∷ rule (exactly (literal end_of_line)) crlf header_name
    ∷ rule (exactly qvalue) accept_encoding_qvalue accept_encoding
    ∷ rule (exactly (is_letter ∷ [])) accept_encoding_other accept_encoding
    ∷ []

one_more : Option ℕ → Option ℕ
one_more none = none
one_more (some n) = some (suc n)

-- How many octets a pattern takes, at most.
pub exact_size : List OctetSet → Bytes → Option ℕ
unfolding one_more
exact_size [] text = some 0
exact_size (s ∷ ss) [] = none
exact_size (s ∷ ss) (c ∷ text) = elim (s c) [ true ↦ one_more (exact_size ss text) | false ↦ none ]

pub run_size : OctetSet → Bytes → ℕ
run_size s [] = 0
run_size s (c ∷ text) = elim (s c) [ true ↦ suc (run_size s text) | false ↦ 0 ]

pub pattern_size : Pattern → Bytes → Option ℕ
unfolding exact_size run_size
pattern_size (exactly ss) text = exact_size ss text
pattern_size (some_of s) text = let n = run_size s text in if n == 0 then none else some n

pub record Matched : Type 0 where
  pub rule_of : LexerRule
  pub size : ℕ

-- Of two matches the longer one, and the first if they are equally long.
longer : Option Matched → Option Matched → Option Matched
longer none q = q
longer (some p) none = some p
longer (some p) (some q) = if ltb p.size q.size then some q else some p

match_of : LexerRule → Option ℕ → Option Matched
match_of r none = none
match_of r (some n) = some (record { rule_of = r; size = n })

pub longest : List LexerRule → Bytes → Option Matched
unfolding pattern_size longer match_of
longest [] text = none
longest (r ∷ rs) text = longer (match_of r (pattern_size r.pattern_of text)) (longest rs text)

-- A token that has been read.
pub record Lexeme : Type 0 where
  pub token_of : Token
  pub state_after : LexerState
  pub text_after : Bytes

lexeme : Bytes → Option Matched → Option Lexeme
lexeme text none = none
lexeme text (some p) = some (record {
  token_of = p.rule_of.to_token (take p.size text);
  state_after = p.rule_of.next_state;
  text_after = drop p.size text;
})

pub next_token : LexerState → Bytes → Option Lexeme
unfolding rules longest lexeme
next_token s text = lexeme text (longest (rules s) text)

-- The tokens of a text; each takes an octet or more.
tokens_after : (Lexeme → List Token) → Option Lexeme → List Token
tokens_after more none = []
tokens_after more (some x) = x.token_of ∷ more x

pub tokens_from : ℕ → LexerState → Bytes → List Token
unfolding next_token tokens_after
tokens_from zero s text = []
tokens_from (suc n) s text =
    tokens_after (λ x. tokens_from n x.state_after x.text_after) (next_token s text)

pub lexed : Bytes → List Token
unfolding tokens_from
lexed text = tokens_from (suc (length text)) initial text

-- ===== src/Http/Parser/RoundTrip/Fields.antt =====
-- Requests as a client writes them, and the grammar of src/httpd/HttpRequestParser.h on them.
use v_ubercool.Base.{ℕ, Bool, true, false, List, [], ◌∷◌, Bytes}
use v_ubercool.Http.Request.{HttpRequest}
use v_ubercool.Http.Parser.{
  Token, blank, crlf, column, comma, h_host, h_dnt, h_accept_encoding, h_any, dnt_on, dnt_off,
  accept_encoding_gzip, accept_encoding_deflate, accept_encoding_other, accept_encoding_qvalue, str,
}
use v_ubercool.Http.Parser.RoundTrip.{repeated, words}

pub data Coding : Type 0 where
  gzip deflate other : Coding

-- An encoding with the blanks before it, and the q-values and commas behind it.
pub record Item : Type 0 where
  pub blanks : ℕ
  pub coding : Coding
  pub qvalues : ℕ
  pub commas : ℕ

-- A header field: the numbers are those of the blanks before the value and behind it.
pub data Field : Type 0 where
  host : ℕ → Bytes → ℕ → Field
  dnt : ℕ → Bool → ℕ → Field
  encodings : List Item → ℕ → Field
  any : ℕ → Bytes → List (ℕ × Bytes) → ℕ → Field

abbrev pub coding_token : Coding → Token
coding_token gzip = accept_encoding_gzip
coding_token deflate = accept_encoding_deflate
coding_token other = accept_encoding_other

abbrev pub item_tokens : Item → List Token → List Token
item_tokens i ts =
    repeated blank i.blanks (
      coding_token i.coding
      ∷ repeated accept_encoding_qvalue i.qvalues (repeated comma i.commas ts))

abbrev pub items_tokens : List Item → List Token → List Token
items_tokens [] ts = ts
items_tokens (i ∷ is) ts = item_tokens i (items_tokens is ts)

abbrev pub line_end : ℕ → List Token → List Token
line_end n ts = repeated blank n (crlf ∷ ts)

abbrev pub dnt_token : Bool → Token
dnt_token true = dnt_on
dnt_token false = dnt_off

abbrev pub field_tokens : Field → List Token → List Token
field_tokens (host n name k) ts = h_host ∷ column ∷ repeated blank n (str name ∷ line_end k ts)
field_tokens (dnt n on k) ts = h_dnt ∷ repeated blank n (dnt_token on ∷ line_end k ts)
field_tokens (encodings is k) ts = h_accept_encoding ∷ items_tokens is (line_end k ts)
field_tokens (any n text more k) ts =
    h_any ∷ column ∷ repeated blank n (str text ∷ words more (line_end k ts))

-- What a field says of the request.
abbrev pub note_coding : Coding → HttpRequest → HttpRequest
note_coding gzip req = record req { accept_encoding_gzip = true }
note_coding deflate req = record req { accept_encoding_deflate = true }
note_coding other req = req

abbrev pub note_items : List Item → HttpRequest → HttpRequest
note_items [] req = req
note_items (i ∷ is) req = note_items is (note_coding i.coding req)

abbrev pub note_field : Field → HttpRequest → HttpRequest
note_field (host n name k) req = record req { host = name }
note_field (dnt n true k) req = record req { do_not_track = true }
note_field (dnt n false k) req = req
note_field (encodings is k) req = note_items is req
note_field (any n text more k) req = req

abbrev pub fields_tokens : List Field → List Token → List Token
fields_tokens [] ts = ts
fields_tokens (f ∷ fs) ts = field_tokens f (fields_tokens fs ts)

abbrev pub note_fields : List Field → HttpRequest → HttpRequest
note_fields [] req = req
note_fields (f ∷ fs) req = note_fields fs (note_field f req)

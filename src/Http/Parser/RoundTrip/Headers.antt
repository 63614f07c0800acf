-- ===== src/Http/Parser/RoundTrip/Headers.antt =====
-- The header fields, and the rule that reads each (src/httpd/HttpRequestParser.h).
use v_ubercool.Base.{ℕ, ◌≡◌, refl, ap, ◌∙◌, Bool, true, false, none, some, List, [], ◌∷◌, Bytes}
use v_ubercool.Http.Request.{HttpRequest}
use v_ubercool.Http.Parser.{
  blank, crlf_rule, hv_crlf, Token, crlf, column, h_host, h_dnt, h_accept_encoding, h_any, str,
  take_one, token, star, keep, one_blank, one_column, one_h_host, one_h_dnt, one_h_accept_encoding,
  one_h_any, one_host, one_dnt_value, ws, host_hdr, dnt_hdr, encoding_item, accept_encoding_hdr,
  word, any_hdr, header,
}
use v_ubercool.Http.Parser.Length.{header-TakesAll}
use v_ubercool.Http.Parser.RoundTrip.{
  repeated, no_word, star-none, star-some, seq_some, seq_none, alt_some, alt_none, star-blanks,
  ws_str, read_hv_crlf, read_word, star-words,
}
use v_ubercool.Http.Parser.RoundTrip.Encodings.{no_token, line_break, read_items}
use v_ubercool.Http.Parser.RoundTrip.Fields.{
  items_tokens, Item, Field, host, dnt, encodings, any, line_end, dnt_token, field_tokens,
  note_items, note_field, fields_tokens, note_fields,
}

take_host :
    (ts : List Token) (req : HttpRequest) → token one_h_host (h_host ∷ ts) req ≡ (some ts, req)
unfolding token one_h_host take_one keep
take_host ts req = refl

take_column :
    (ts : List Token) (req : HttpRequest) → token one_column (column ∷ ts) req ≡ (some ts, req)
unfolding token one_column take_one keep
take_column ts req = refl

take_name :
    (name : Bytes) (ts : List Token) (req : HttpRequest)
    → token one_host (str name ∷ ts) req ≡ (some ts, record req { host = name })
unfolding token one_host take_one
take_name name ts req = refl

read_host :
    (n : ℕ) (name : Bytes) (k : ℕ) (ts : List Token) (req : HttpRequest)
    → host_hdr (field_tokens (host n name k) ts) req ≡ (some ts, record req { host = name })
unfolding host_hdr
read_host n name k ts req =
    seq_some (token one_h_host) _ (take_host _ req)
    ∙ seq_some (token one_column) _ (take_column _ req)
    ∙ seq_some (star ws) _ (star-blanks n (str name ∷ line_end k ts) req (ws_str name _ req))
    ∙ seq_some (token one_host) _ (take_name name _ req)
    ∙ read_hv_crlf k ts (record req { host = name })

take_dnt : (ts : List Token) (req : HttpRequest) → token one_h_dnt (h_dnt ∷ ts) req ≡ (some ts, req)
unfolding token one_h_dnt take_one keep
take_dnt ts req = refl

ws_dnt :
    (on : Bool) (ts : List Token) (req : HttpRequest) → ws (dnt_token on ∷ ts) req ≡ (none, req)
unfolding ws token one_blank take_one
ws_dnt true ts req = refl
ws_dnt false ts req = refl

take_dnt_value :
    (n k : ℕ) (on : Bool) (ts : List Token) (req : HttpRequest)
    → token one_dnt_value (dnt_token on ∷ ts) req ≡ (some ts, note_field (dnt n on k) req)
unfolding token one_dnt_value take_one keep
take_dnt_value n k true ts req = refl
take_dnt_value n k false ts req = refl

read_dnt :
    (n : ℕ) (on : Bool) (k : ℕ) (ts : List Token) (req : HttpRequest)
    → dnt_hdr (field_tokens (dnt n on k) ts) req ≡ (some ts, note_field (dnt n on k) req)
unfolding dnt_hdr
read_dnt n on k ts req =
    seq_some (token one_h_dnt) _ (take_dnt _ req)
    ∙ seq_some (star ws) _ (star-blanks n (dnt_token on ∷ line_end k ts) req (ws_dnt on _ req))
    ∙ seq_some (token one_dnt_value) _ (take_dnt_value n k on _ req)
    ∙ read_hv_crlf k ts (note_field (dnt n on k) req)

take_accept_encoding :
    (ts : List Token) (req : HttpRequest)
    → token one_h_accept_encoding (h_accept_encoding ∷ ts) req ≡ (some ts, req)
unfolding token one_h_accept_encoding take_one keep
take_accept_encoding ts req = refl

read_encodings :
    (is : List Item) (k : ℕ) (ts : List Token) (req : HttpRequest)
    → accept_encoding_hdr (field_tokens (encodings is k) ts) req ≡ (some ts, note_items is req)
unfolding accept_encoding_hdr
read_encodings is k ts req =
    seq_some (token one_h_accept_encoding) _ (take_accept_encoding _ req)
    ∙ seq_some (star encoding_item) _ (read_items is k (crlf ∷ ts) req (line_break ts))
    ∙ read_hv_crlf k ts (note_items is req)

take_any : (ts : List Token) (req : HttpRequest) → token one_h_any (h_any ∷ ts) req ≡ (some ts, req)
unfolding token one_h_any take_one keep
take_any ts req = refl

read_any :
    (n : ℕ) (text : Bytes) (more : List (ℕ × Bytes)) (k : ℕ) (ts : List Token) (req : HttpRequest)
    → any_hdr (field_tokens (any n text more k) ts) req ≡ (some ts, req)
unfolding any_hdr
read_any n text more k ts req =
    seq_some (token one_h_any) _ (take_any _ req)
    ∙ seq_some (token one_column) _ (take_column _ req)
    ∙ seq_some word _ (read_word n text _ req)
    ∙ seq_some (star word) _ (star-words more k ts req)
    ∙ read_hv_crlf k ts req

-- The first token of a field decides which rule reads it.
no_host :
    (t : Token) (ts : List Token) (req : HttpRequest)
    → one_h_host t ≡ none
    → host_hdr (t ∷ ts) req ≡ (none, req)
unfolding host_hdr token take_one
no_host t ts req h =
    seq_none (token one_h_host) {ts = t ∷ ts} {req = req} _ (ap (λ o. take_one o ts req) h)

no_dnt :
    (t : Token) (ts : List Token) (req : HttpRequest)
    → one_h_dnt t ≡ none
    → dnt_hdr (t ∷ ts) req ≡ (none, req)
unfolding dnt_hdr token take_one
no_dnt t ts req h =
    seq_none (token one_h_dnt) {ts = t ∷ ts} {req = req} _ (ap (λ o. take_one o ts req) h)

no_encodings :
    (t : Token) (ts : List Token) (req : HttpRequest)
    → one_h_accept_encoding t ≡ none
    → accept_encoding_hdr (t ∷ ts) req ≡ (none, req)
unfolding accept_encoding_hdr token take_one
no_encodings t ts req h =
    seq_none (token one_h_accept_encoding) {ts = t ∷ ts} {req = req} _
      (ap (λ o. take_one o ts req) h)

no_any :
    (t : Token) (ts : List Token) (req : HttpRequest)
    → one_h_any t ≡ none
    → any_hdr (t ∷ ts) req ≡ (none, req)
unfolding any_hdr token take_one
no_any t ts req h =
    seq_none (token one_h_any) {ts = t ∷ ts} {req = req} _ (ap (λ o. take_one o ts req) h)

read_field :
    (f : Field) (ts : List Token) (req : HttpRequest)
    → header (field_tokens f ts) req ≡ (some ts, note_field f req)
unfolding header one_h_host one_h_dnt one_h_accept_encoding
read_field (host n name k) ts req = alt_some host_hdr _ (read_host n name k ts req)
read_field (dnt n on k) ts req =
    alt_none host_hdr _ (no_host h_dnt _ req refl) ∙ alt_some dnt_hdr _ (read_dnt n on k ts req)
read_field (encodings is k) ts req =
    alt_none host_hdr _ (no_host h_accept_encoding _ req refl)
    ∙ alt_none dnt_hdr _ (no_dnt h_accept_encoding _ req refl)
    ∙ alt_some accept_encoding_hdr _ (read_encodings is k ts req)
read_field (any n text more k) ts req =
    alt_none host_hdr _ (no_host h_any _ req refl)
    ∙ alt_none dnt_hdr _ (no_dnt h_any _ req refl)
    ∙ alt_none accept_encoding_hdr _ (no_encodings h_any _ req refl)
    ∙ read_any n text more k ts req

pub no_field : (ts : List Token) (req : HttpRequest) → header (crlf ∷ ts) req ≡ (none, req)
unfolding header one_h_host one_h_dnt one_h_accept_encoding one_h_any
no_field ts req =
    alt_none host_hdr _ (no_host crlf ts req refl)
    ∙ alt_none dnt_hdr _ (no_dnt crlf ts req refl)
    ∙ alt_none accept_encoding_hdr _ (no_encodings crlf ts req refl)
    ∙ no_any crlf ts req refl

-- The repetition of fields, before tokens that are no field; `q` is what the attempt to read one does.
pub read_fields_until :
    (q : HttpRequest → HttpRequest) (fs : List Field) (ts : List Token) (req : HttpRequest)
    → ((r : HttpRequest) → header ts r ≡ (none, q r))
    → star header (fields_tokens fs ts) req ≡ (some ts, q (note_fields fs req))
read_fields_until q [] ts req stop = star-none header (stop req)
read_fields_until q (f ∷ fs) ts req stop =
    star-some header header-TakesAll (read_field f (fields_tokens fs ts) req)
    ∙ read_fields_until q fs ts (note_field f req) stop

pub read_fields :
    (fs : List Field) (ts : List Token) (req : HttpRequest)
    → ((r : HttpRequest) → header ts r ≡ (none, r))
    → star header (fields_tokens fs ts) req ≡ (some ts, note_fields fs req)
read_fields fs ts req stop = read_fields_until (λ r. r) fs ts req stop

ws_nothing : (req : HttpRequest) → ws [] req ≡ (none, req)
unfolding ws token
ws_nothing req = refl

take_nothing : (req : HttpRequest) → crlf_rule [] req ≡ (none, req)
unfolding crlf_rule token
take_nothing req = refl

crlf_nothing : (k : ℕ) (req : HttpRequest) → hv_crlf (repeated blank k []) req ≡ (none, req)
unfolding hv_crlf
crlf_nothing k req =
    seq_some (star ws) crlf_rule (star-blanks k [] req (ws_nothing req)) ∙ take_nothing req

-- Nor is a list of encodings in which the tokens end.
pub cut_encodings :
    (is : List Item) (k : ℕ) (req : HttpRequest)
    → header (h_accept_encoding ∷ items_tokens is (repeated blank k [])) req
      ≡ (none, note_items is req)
unfolding header accept_encoding_hdr one_h_host one_h_dnt one_h_any
cut_encodings is k req =
    let ts = h_accept_encoding ∷ items_tokens is (repeated blank k []) in
    let cut =
      seq_some (token one_h_accept_encoding) _ (take_accept_encoding _ req)
      ∙ seq_some (star encoding_item) _ (read_items is k [] req no_token)
      ∙ crlf_nothing k (note_items is req) in
    alt_none host_hdr _ (no_host h_accept_encoding _ req refl)
    ∙ alt_none dnt_hdr _ (no_dnt h_accept_encoding _ req refl)
    ∙ alt_none accept_encoding_hdr _ cut
    ∙ no_any h_accept_encoding _ (note_items is req) refl

-- A field without a value is none of the grammar's.
pub empty_value :
    (k : ℕ) (ts : List Token) (req : HttpRequest)
    → header (h_any ∷ column ∷ line_end k ts) req ≡ (none, req)
unfolding header any_hdr one_h_host one_h_dnt one_h_accept_encoding
empty_value k ts req =
    alt_none host_hdr _ (no_host h_any _ req refl)
    ∙ alt_none dnt_hdr _ (no_dnt h_any _ req refl)
    ∙ alt_none accept_encoding_hdr _ (no_encodings h_any _ req refl)
    ∙ seq_some (token one_h_any) _ (take_any _ req)
    ∙ seq_some (token one_column) _ (take_column _ req)
    ∙ seq_none word _ (no_word k ts req)

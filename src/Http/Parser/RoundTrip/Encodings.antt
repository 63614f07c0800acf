-- ===== src/Http/Parser/RoundTrip/Encodings.antt =====
-- The values of an accept-encoding header (src/httpd/HttpRequestParser.h).
use v_ubercool.Base.{ℕ, zero, suc, ◌≡◌, refl, ◌∙◌, none, some, List, [], ◌∷◌}
use v_ubercool.Http.Request.{HttpRequest}
use v_ubercool.Http.Parser.{
  Token, blank, crlf, comma, accept_encoding_qvalue, take_one, token, star, keep, one_blank,
  one_comma, one_qvalue, one_encoding, ws, encoding_item,
}
use v_ubercool.Http.Parser.Length.{encoding_item-TakesAll}
use v_ubercool.Http.Parser.RoundTrip.{
  repeated, star-none, star-some, seq_some, seq_none, star-repeated, star-blanks,
}
use v_ubercool.Http.Parser.RoundTrip.Fields.{
  Coding, gzip, deflate, other, Item, coding_token, items_tokens, note_coding, note_items,
}

-- The rules for q-values and commas fail behind an encoding.
qvalue_coding :
    (n : ℕ) (c : Coding) (ts : List Token) (req : HttpRequest)
    → token one_qvalue (repeated blank n (coding_token c ∷ ts)) req ≡ (none, req)
unfolding token one_qvalue take_one
qvalue_coding (suc n) c ts req = refl
qvalue_coding zero gzip ts req = refl
qvalue_coding zero deflate ts req = refl
qvalue_coding zero other ts req = refl

comma_coding :
    (n : ℕ) (c : Coding) (ts : List Token) (req : HttpRequest)
    → token one_comma (repeated blank n (coding_token c ∷ ts)) req ≡ (none, req)
unfolding token one_comma take_one
comma_coding (suc n) c ts req = refl
comma_coding zero gzip ts req = refl
comma_coding zero deflate ts req = refl
comma_coding zero other ts req = refl

-- What may follow the values: the end of the line, or no token at all.
pub data IsEnd : List Token → Type 0 where
  no_token : IsEnd []
  line_break : (us : List Token) → IsEnd (crlf ∷ us)

qvalue_end :
    (is : List Item) (k : ℕ) (us : List Token) (req : HttpRequest)
    → IsEnd us
    → token one_qvalue (items_tokens is (repeated blank k us)) req ≡ (none, req)
unfolding token one_qvalue take_one
qvalue_end [] zero us req no_token = refl
qvalue_end [] zero us req (line_break vs) = refl
qvalue_end [] (suc k) us req e = refl
qvalue_end (i ∷ is) k us req e = qvalue_coding i.blanks i.coding _ req

comma_end :
    (is : List Item) (k : ℕ) (us : List Token) (req : HttpRequest)
    → IsEnd us
    → token one_comma (items_tokens is (repeated blank k us)) req ≡ (none, req)
unfolding token one_comma take_one
comma_end [] zero us req no_token = refl
comma_end [] zero us req (line_break vs) = refl
comma_end [] (suc k) us req e = refl
comma_end (i ∷ is) k us req e = comma_coding i.blanks i.coding _ req

qvalue_commas :
    (n : ℕ) (is : List Item) (k : ℕ) (us : List Token) (req : HttpRequest)
    → IsEnd us
    → token one_qvalue (repeated comma n (items_tokens is (repeated blank k us))) req ≡ (none, req)
unfolding token one_qvalue take_one
qvalue_commas zero is k us req e = qvalue_end is k us req e
qvalue_commas (suc n) is k us req e = refl

ws_coding :
    (c : Coding) (ts : List Token) (req : HttpRequest) → ws (coding_token c ∷ ts) req ≡ (none, req)
unfolding ws token one_blank take_one
ws_coding gzip ts req = refl
ws_coding deflate ts req = refl
ws_coding other ts req = refl

take_coding :
    (c : Coding) (ts : List Token) (req : HttpRequest)
    → token one_encoding (coding_token c ∷ ts) req ≡ (some ts, note_coding c req)
unfolding token one_encoding take_one keep
take_coding gzip ts req = refl
take_coding deflate ts req = refl
take_coding other ts req = refl

take_qvalue :
    (ts : List Token) (req : HttpRequest)
    → token one_qvalue (accept_encoding_qvalue ∷ ts) req ≡ (some ts, req)
unfolding token one_qvalue take_one keep
take_qvalue ts req = refl

take_comma :
    (ts : List Token) (req : HttpRequest) → token one_comma (comma ∷ ts) req ≡ (some ts, req)
unfolding token one_comma take_one keep
take_comma ts req = refl

read_item :
    (i : Item) (is : List Item) (k : ℕ) (us : List Token) (req : HttpRequest)
    → IsEnd us
    → encoding_item (items_tokens (i ∷ is) (repeated blank k us)) req
      ≡ (some (items_tokens is (repeated blank k us)), note_coding i.coding req)
unfolding encoding_item
read_item i is k us req e =
    let rest = items_tokens is (repeated blank k us) in
    let req1 = note_coding i.coding req in
    let commas = repeated comma i.commas rest in
    seq_some (star ws) _ (star-blanks i.blanks _ req (ws_coding i.coding _ req))
    ∙ seq_some (token one_encoding) _ (take_coding i.coding _ req)
    ∙ seq_some (star (token one_qvalue)) _ (
        star-repeated one_qvalue accept_encoding_qvalue i.qvalues commas req1
          (λ us. take_qvalue us req1) (qvalue_commas i.commas is k us req1 e))
    ∙ star-repeated one_comma comma i.commas rest req1 (λ us. take_comma us req1)
        (comma_end is k us req1 e)

encoding_end :
    (us : List Token) (req : HttpRequest) → IsEnd us → token one_encoding us req ≡ (none, req)
unfolding token one_encoding take_one
encoding_end us req no_token = refl
encoding_end us req (line_break vs) = refl

ws_end : (us : List Token) (req : HttpRequest) → IsEnd us → ws us req ≡ (none, req)
unfolding ws token one_blank take_one
ws_end us req no_token = refl
ws_end us req (line_break vs) = refl

no_item :
    (k : ℕ) (us : List Token) (req : HttpRequest)
    → IsEnd us
    → encoding_item (repeated blank k us) req ≡ (none, req)
unfolding encoding_item
no_item k us req e =
    seq_some (star ws) _ (star-blanks k us req (ws_end us req e))
    ∙ seq_none (token one_encoding) _ (encoding_end us req e)

pub read_items :
    (is : List Item) (k : ℕ) (us : List Token) (req : HttpRequest)
    → IsEnd us
    → star encoding_item (items_tokens is (repeated blank k us)) req
      ≡ (some (repeated blank k us), note_items is req)
read_items [] k us req e = star-none encoding_item (no_item k us req e)
read_items (i ∷ is) k us req e =
    star-some encoding_item encoding_item-TakesAll (read_item i is k us req e)
    ∙ read_items is k us (note_coding i.coding req) e

-- ===== src/Http/Parser/RoundTrip.antt =====
-- The request grammar (src/httpd/HttpRequestParser.h) reads back what a client writes.
pub mod Fields
pub mod Encodings
pub mod Headers
pub mod Message
use v_ubercool.Base.{
  ℕ, zero, suc, ◌+◌, ◌≤◌, ◌<◌, ◌≡◌, refl, ap, subst, ◌-◌, ◌∙◌, Option, none, some, List, [], ◌∷◌,
  Bytes, length, arith,
}
use v_ubercool.Http.Request.{HttpRequest}
use v_ubercool.Http.Parser.{
  Token, blank, crlf, str, Match, Rule, token, seq_after, ◌>>◌, alt_after, ◌<|>◌, many_after, many,
  star, ws, crlf_rule, hv_crlf, word, one_str, one_blank, one_crlf, take_one, keep,
}
use v_ubercool.Http.Parser.Length.{word-TakesAll}
use v_ubercool.Http.Parser.Rules.{Takes, TakesAll, token-TakesAll, many-fuel}

-- A token several times before others.
abbrev pub repeated : Token → ℕ → List Token → List Token
repeated t zero ts = ts
repeated t (suc n) ts = t ∷ repeated t n ts

module _ (p : Rule) {ts : List Token} {req : HttpRequest} where
  pub star-none : {r : HttpRequest} → p ts req ≡ (none, r) → star p ts req ≡ (some ts, r)
  unfolding star many many_after
  star-none h = ap (many_after (many (length ts) p) ts) h

  star-some_from :
      (n : ℕ) {us : List Token} {r : HttpRequest}
      → TakesAll 1 p
      → n ≡ length ts
      → length us + 1 ≤ length ts
      → p ts req ≡ (some us, r)
      → many (suc n) p ts req ≡ star p us r
  unfolding many many_after star
  star-some_from n {us} {r} h e l k =
      let m : ℕ = n - suc (length us) in
      ap (many_after (many n p) ts) k
      ∙ ap (λ i. many i p us r) (let split : n ≡ m + suc (length us) = omega (arith, e, l) in split)
      ∙ many-fuel (suc (length us)) m p us r h (omega arith)

  pub star-some :
      {us : List Token} {r : HttpRequest}
      → TakesAll 1 p
      → p ts req ≡ (some us, r)
      → star p ts req ≡ star p us r
  unfolding star Takes
  star-some {us} {r} h k =
      let t : Takes 1 ts (some us, r) = subst (Takes 1 ts) k (h ts req) in
      star-some_from (length ts) h refl t k

  pub seq_some :
      (q : Rule) {us : List Token} {r : HttpRequest}
      → p ts req ≡ (some us, r)
      → (p >> q) ts req ≡ q us r
  unfolding ◌>>◌ seq_after
  seq_some q h = ap (seq_after q) h

  pub seq_none : (q : Rule) {r : HttpRequest} → p ts req ≡ (none, r) → (p >> q) ts req ≡ (none, r)
  unfolding ◌>>◌ seq_after
  seq_none q h = ap (seq_after q) h

  pub alt_some :
      (q : Rule) {us : List Token} {r : HttpRequest}
      → p ts req ≡ (some us, r)
      → (p <|> q) ts req ≡ (some us, r)
  unfolding ◌<|>◌ alt_after
  alt_some q h = ap (alt_after q ts) h

  pub alt_none : (q : Rule) {r : HttpRequest} → p ts req ≡ (none, r) → (p <|> q) ts req ≡ q ts r
  unfolding ◌<|>◌ alt_after
  alt_none q h = ap (alt_after q ts) h

-- A repetition of one token, before one that the rule does not take.
pub star-repeated :
    (act : Token → Option (HttpRequest → HttpRequest)) (t : Token) (n : ℕ) (ts : List Token)
    (req : HttpRequest)
    → ((us : List Token) → token act (t ∷ us) req ≡ (some us, req))
    → token act ts req ≡ (none, req)
    → star (token act) (repeated t n ts) req ≡ (some ts, req)
star-repeated act t zero ts req h k = star-none (token act) k
star-repeated act t (suc n) ts req h k =
    star-some (token act) (token-TakesAll act) (h (repeated t n ts))
    ∙ star-repeated act t n ts req h k

pub star-blanks :
    (n : ℕ) (ts : List Token) (req : HttpRequest)
    → ws ts req ≡ (none, req)
    → star ws (repeated blank n ts) req ≡ (some ts, req)
unfolding ws token one_blank take_one keep
star-blanks n ts req h = star-repeated one_blank blank n ts req (λ us. refl) h

-- What the rules of one token do on the tokens that matter.
pub ws_blank : (ts : List Token) (req : HttpRequest) → ws (blank ∷ ts) req ≡ (some ts, req)
unfolding ws token one_blank take_one keep
ws_blank ts req = refl

pub ws-crlf : (ts : List Token) (req : HttpRequest) → ws (crlf ∷ ts) req ≡ (none, req)
unfolding ws token one_blank take_one
ws-crlf ts req = refl

pub ws_str :
    (text : Bytes) (ts : List Token) (req : HttpRequest) → ws (str text ∷ ts) req ≡ (none, req)
unfolding ws token one_blank take_one
ws_str text ts req = refl

pub take_crlf : (ts : List Token) (req : HttpRequest) → crlf_rule (crlf ∷ ts) req ≡ (some ts, req)
unfolding crlf_rule token one_crlf take_one keep
take_crlf ts req = refl

take_str :
    (text : Bytes) (ts : List Token) (req : HttpRequest)
    → token one_str (str text ∷ ts) req ≡ (some ts, req)
unfolding token one_str take_one keep
take_str text ts req = refl

str_crlf : (ts : List Token) (req : HttpRequest) → token one_str (crlf ∷ ts) req ≡ (none, req)
unfolding token one_str take_one
str_crlf ts req = refl

pub read_hv_crlf :
    (n : ℕ) (ts : List Token) (req : HttpRequest)
    → hv_crlf (repeated blank n (crlf ∷ ts)) req ≡ (some ts, req)
unfolding hv_crlf
read_hv_crlf n ts req =
    seq_some (star ws) crlf_rule (star-blanks n (crlf ∷ ts) req (ws-crlf ts req)) ∙ take_crlf ts req

pub read_word :
    (n : ℕ) (text : Bytes) (ts : List Token) (req : HttpRequest)
    → word (repeated blank n (str text ∷ ts)) req ≡ (some ts, req)
unfolding word
read_word n text ts req =
    seq_some (star ws) (token one_str) (star-blanks n (str text ∷ ts) req (ws_str text ts req))
    ∙ take_str text ts req

pub no_word :
    (n : ℕ) (ts : List Token) (req : HttpRequest)
    → word (repeated blank n (crlf ∷ ts)) req ≡ (none, req)
unfolding word
no_word n ts req =
    seq_some (star ws) (token one_str) (star-blanks n (crlf ∷ ts) req (ws-crlf ts req))
    ∙ str_crlf ts req

-- Words, each with the blanks before it.
abbrev pub words : List (ℕ × Bytes) → List Token → List Token
words [] ts = ts
words ((n, text) ∷ more) ts = repeated blank n (str text ∷ words more ts)

pub star-words :
    (more : List (ℕ × Bytes)) (n : ℕ) (ts : List Token) (req : HttpRequest)
    → star word (words more (repeated blank n (crlf ∷ ts))) req
      ≡ (some (repeated blank n (crlf ∷ ts)), req)
star-words [] n ts req = star-none word (no_word n ts req)
star-words ((k, text) ∷ more) n ts req =
    star-some word word-TakesAll (read_word k text (words more (repeated blank n (crlf ∷ ts))) req)
    ∙ star-words more n ts req

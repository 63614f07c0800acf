-- ===== src/Http/Lexer/Texts.antt =====
-- The tokens of `HeaderLexer` (src/httpd/HttpRequestParser.h) that hold a text of the client.
use v_ubercool.Base.{
  ℕ, ◌≡◌, refl, Bool, true, false, not, ◌||◌, none, some, [], ◌∷◌, ◌++◌, Bytes, codes, arith, ◌==◌,
}
use v_ubercool.Http.Parser.{uri, str, crlf, accept_encoding_other, accept_encoding_qvalue}
use v_ubercool.Http.Lexer.{
  OctetSet, is_text, is_blank, is_letter, is_digit, exactly, uri_state, header_name, header_content,
  accept_encoding, next_token, pattern_size, rules, exact_size, one_more, same_letter, text_rule,
  rule, qvalue,
}
use v_ubercool.Http.Lexer.Scan.{Reads}
use v_ubercool.Http.Lexer.Best.{IsOf, skip, win, misses, some_of_size, scan_best, scan_none}

-- Octets that are no white space.
text_misses :
    (c : ℕ) → is_text c ≡ true → ((c == 13) ≡ false) × ((c == 32) ≡ false) × (is_blank c ≡ false)
unfolding is_text is_blank
text_misses c h = ground arith

pub scan_uri :
    (target rest : Bytes)
    → IsOf is_text target
    → Reads uri_state (target ++ 32 ∷ rest) (uri target) uri_state (32 ∷ rest)
unfolding rules
scan_uri [] rest h = absurd h
scan_uri (c ∷ target) rest h =
    scan_best uri_state (c ∷ target) (32 ∷ rest) (text_rule is_text uri uri_state) (
      win refl (some_of_size is_text (c ∷ target) 32 rest h refl)
        (misses _ _ c _ (text_misses c h.0).1, tt))

-- What follows a line is not a continuation of it.
abbrev pub NotFolded : Bytes → Type 0
NotFolded [] = Unit
NotFolded (c ∷ text) = (c == 32) ≡ false

pub scan_str :
    (word : Bytes) (d : ℕ) (rest : Bytes)
    → IsOf is_text word
    → is_text d ≡ false
    → Reads header_content (word ++ d ∷ rest) (str word) header_content (d ∷ rest)
unfolding rules
scan_str [] d rest h stop = absurd h
scan_str (c ∷ word) d rest h stop =
    let no = text_misses c h.0 in
    scan_best header_content (c ∷ word) (d ∷ rest) (text_rule is_text str header_content) (
      skip (misses _ _ c _ no.0) (
        skip (misses _ _ c _ no.2)
          (win refl (some_of_size is_text (c ∷ word) d rest h stop) (misses _ _ c _ no.0, tt))))

pub scan_content_crlf :
    (rest : Bytes) → NotFolded rest → Reads header_content (13 ∷ 10 ∷ rest) crlf header_name rest
unfolding next_token
scan_content_crlf [] h = refl
scan_content_crlf (c ∷ rest) h = ground arith

-- Letters among the other octets of an accept-encoding header.
letter_misses :
    (c : ℕ)
    → is_letter c ≡ true
    → (is_blank c ≡ false) × ((c == 44) ≡ false) × ((c == 13) ≡ false) × ((c == 59) ≡ false)
unfolding is_letter is_blank
letter_misses c h = ground arith

takes_one :
    (s : OctetSet) (c : ℕ) (rest : Bytes)
    → s c ≡ true
    → pattern_size (exactly (s ∷ [])) (c ∷ rest) ≡ some 1
unfolding pattern_size exact_size one_more
takes_one s c rest h = rw (h, exact_size) refl

pub scan_letter :
    (c : ℕ) (rest : Bytes)
    → is_letter c ≡ true
    → same_letter b'g' c ≡ false
    → same_letter b'd' c ≡ false
    → Reads accept_encoding (c ∷ rest) accept_encoding_other accept_encoding rest
unfolding rules
scan_letter c rest h g d =
    let no = letter_misses c h in
    scan_best accept_encoding (c ∷ []) rest
      (rule (exactly (is_letter ∷ [])) accept_encoding_other accept_encoding)
      (skip (misses _ _ c _ no.0) (
        skip (misses _ _ c _ no.1) (
          skip (misses _ _ c _ g) (
            skip (misses _ _ c _ d) (
              skip (misses _ _ c _ no.2)
                (skip (misses _ _ c _ no.3) (win refl (takes_one is_letter c rest h) tt)))))))

qvalue_size :
    (m n : ℕ) (rest : Bytes)
    → is_digit m ≡ true
    → is_digit n ≡ true
    → pattern_size (exactly qvalue) (codes ";q=" ++ m ∷ 46 ∷ n ∷ rest) ≡ some 6
unfolding pattern_size exact_size one_more qvalue
qvalue_size m n rest h k = rw (h, exact_size) (rw (k, exact_size) refl)

pub scan_qvalue :
    (m n : ℕ) (rest : Bytes)
    → is_digit m ≡ true
    → is_digit n ≡ true
    → Reads accept_encoding
        (codes ";q=" ++ m ∷ 46 ∷ n ∷ rest)
        accept_encoding_qvalue
        accept_encoding
        rest
unfolding rules
scan_qvalue m n rest h k =
    scan_best accept_encoding (codes ";q=" ++ m ∷ 46 ∷ n ∷ []) rest
      (rule (exactly qvalue) accept_encoding_qvalue accept_encoding)
      (skip (misses _ _ 59 _ refl) (
        skip (misses _ _ 59 _ refl) (
          skip (misses _ _ 59 _ refl) (
            skip (misses _ _ 59 _ refl) (
              skip (misses _ _ 59 _ refl)
                (win refl (qvalue_size m n rest h k) (misses _ _ 59 _ refl, tt)))))))

-- An octet with which no token of an accept-encoding header begins.
abbrev pub is_strange : ℕ → Bool
is_strange c = not (is_blank c || c == 44 || is_letter c || c == 13 || c == 59)

strange_misses :
    (c : ℕ)
    → is_strange c ≡ true
    → (is_blank c ≡ false)
      × ((c == 44) ≡ false)
      × (same_letter b'g' c ≡ false)
      × (same_letter b'd' c ≡ false)
      × ((c == 13) ≡ false)
      × ((c == 59) ≡ false)
      × (is_letter c ≡ false)
unfolding is_letter is_blank same_letter
strange_misses c h = (
  ground arith,
  ground arith,
  ground arith,
  ground arith,
  ground arith,
  ground arith,
  ground arith,
)

pub scan_strange :
    (c : ℕ) (rest : Bytes) → is_strange c ≡ true → next_token accept_encoding (c ∷ rest) ≡ none
unfolding rules
scan_strange c rest h =
    let off = strange_misses c h in
    scan_none accept_encoding (c ∷ rest) (
      misses _ _ c _ off.0,
      (
        misses _ _ c _ off.1,
        (
          misses _ _ c _ off.2,
          (
            misses _ _ c _ off.3,
            (misses _ _ c _ off.4, (misses _ _ c _ off.5, (misses _ _ c _ off.6, tt))),
          ),
        ),
      ),
    )

-- ===== src/Http/Lexer/Best.antt =====
-- The longest match among the rules of a state of `HeaderLexer` (src/httpd/HttpRequestParser.h).
use v_ubercool.Base.{
  ℕ, suc, ◌<◌, ◌≡◌, refl, ap, sym, ◌∙◌, true, false, Option, none, some, List, [], ◌∷◌, ◌++◌, Bytes,
  length, All, arith, ltb, ◌==◌, drop, take-append_length, if◌then◌else◌,
}
use v_ubercool.Http.Lexer.{
  OctetSet, exactly, some_of, LexerState, next_token, run_size, pattern_size, rules, longest,
  longer, match_of, exact_size, lexeme, Matched, LexerRule,
}
use v_ubercool.Http.Lexer.Scan.{Reads}

-- A text of octets of a set, and one octet or more of them.
abbrev pub IsOf : OctetSet → Bytes → Type 0
IsOf s [] = ⊥
IsOf s (c ∷ text) = (s c ≡ true) × All (λ d. s d ≡ true) text

pub run_size-append :
    (s : OctetSet) (text : Bytes) (d : ℕ) (rest : Bytes)
    → All (λ c. s c ≡ true) text
    → s d ≡ false
    → run_size s (text ++ d ∷ rest) ≡ length text
unfolding run_size
run_size-append s [] d rest h stop = rw (stop, run_size) refl
run_size-append s (c ∷ text) d rest h stop =
    rw (h.0, run_size) (ap suc (run_size-append s text d rest h.1 stop))

pub some_of_size :
    (s : OctetSet) (text : Bytes) (d : ℕ) (rest : Bytes)
    → IsOf s text
    → s d ≡ false
    → pattern_size (some_of s) (text ++ d ∷ rest) ≡ some (length text)
unfolding pattern_size
some_of_size s [] d rest h stop = absurd h
some_of_size s (c ∷ text) d rest h stop =
    let n = run_size-append s (c ∷ text) d rest h stop in
    ap (λ (k : ℕ). if k == 0 then none else some k) n ∙ ground arith

pub misses :
    (s : OctetSet) (ss : List OctetSet) (c : ℕ) (text : Bytes)
    → s c ≡ false
    → pattern_size (exactly (s ∷ ss)) (c ∷ text) ≡ none
unfolding pattern_size exact_size
misses s ss c text h = rw (h, exact_size) refl

-- No rule matches.
abbrev pub Misses : Bytes → List LexerRule → Type 0
Misses text = All (λ (r : LexerRule). pattern_size r.pattern_of text ≡ none)

Misses-longest : (text : Bytes) (rs : List LexerRule) → Misses text rs → longest rs text ≡ none
unfolding longest longer match_of
Misses-longest text [] h = refl
Misses-longest text (r ∷ rs) h =
    ap (λ o. longer (match_of r o) (longest rs text)) h.0 ∙ Misses-longest text rs h.1

-- The rule `q` wins among the rules of a state, with `n` octets.
pub data IsBest (text : Bytes) (q : LexerRule) (n : ℕ) : List LexerRule → Type 0 where
  skip :
      {r : LexerRule} {rs : List LexerRule}
      → pattern_size r.pattern_of text ≡ none
      → IsBest text q n rs
      → IsBest text q n (r ∷ rs)
  beat :
      {r : LexerRule} {rs : List LexerRule} (k : ℕ)
      → pattern_size r.pattern_of text ≡ some k
      → k < n
      → IsBest text q n rs
      → IsBest text q n (r ∷ rs)
  win :
      {r : LexerRule} {rs : List LexerRule}
      → q ≡ r
      → pattern_size r.pattern_of text ≡ some n
      → Misses text rs
      → IsBest text q n (r ∷ rs)

abbrev pub matched : LexerRule → ℕ → Option Matched
matched q n = some (record { rule_of = q; size = n })

pub IsBest-longest :
    (text : Bytes) (q : LexerRule) (n : ℕ) (rs : List LexerRule)
    → IsBest text q n rs
    → longest rs text ≡ matched q n
unfolding longest longer match_of
IsBest-longest text q n [] b = elim b [ ]
IsBest-longest text q n (r ∷ rs) (skip h b) =
    ap (λ o. longer (match_of r o) (longest rs text)) h ∙ IsBest-longest text q n rs b
IsBest-longest text q n (r ∷ rs) (beat k h lt b) =
    ap (λ o. longer (match_of r o) (longest rs text)) h
    ∙ ap (longer (matched r k)) (IsBest-longest text q n rs b)
    ∙ (let wins : ltb k n ≡ true = ground arith in
        ap (λ b. if b then matched q n else matched r k) wins)
IsBest-longest text q n (r ∷ rs) (win same h rest) =
    ap (λ o. longer (match_of r o) (longest rs text)) h
    ∙ ap (longer (matched r n)) (Misses-longest text rs rest)
    ∙ ap (λ r. matched r n) (sym same)

pub drop-append_length : (xs ys : Bytes) → drop (length xs) (xs ++ ys) ≡ ys
drop-append_length [] ys = refl
drop-append_length (x ∷ xs) ys = drop-append_length xs ys

-- The token of the longest match.
pub scan_best :
    (s : LexerState) (text rest : Bytes) (q : LexerRule)
    → IsBest (text ++ rest) q (length text) (rules s)
    → Reads s (text ++ rest) (q.to_token text) q.next_state rest
unfolding next_token lexeme
scan_best s text rest q b =
    ap (lexeme (text ++ rest)) (IsBest-longest (text ++ rest) q (length text) (rules s) b)
    ∙ ap
        (λ t. some (record {
          token_of = q.to_token t;
          state_after = q.next_state;
          text_after = drop (length text) (text ++ rest);
        }))
        (take-append_length text rest)
    ∙ ap
        (λ u.
          some (record { token_of = q.to_token text; state_after = q.next_state; text_after = u }))
        (drop-append_length text rest)

-- Where no rule matches there is no token.
pub scan_none : (s : LexerState) (text : Bytes) → Misses text (rules s) → next_token s text ≡ none
unfolding next_token lexeme
scan_none s text h = ap (lexeme text) (Misses-longest text (rules s) h)

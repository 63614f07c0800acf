-- ===== src/Http/Lexer/Lexes.antt =====
-- The tokens of a whole text, after the rules of `HeaderLexer` (src/httpd/HttpRequestParser.h), as a
-- relation, and that the lexer ends.
use v_ubercool.Base.{
  ℕ, zero, suc, ◌≤◌, ◌<◌, ◌≡◌, refl, ap, subst, ◌∙◌, inl, inr, Option, none, some, List, [], ◌∷◌,
  Bytes, length, length-drop, All, arith, ltb, ◌==◌, Bool-cases, Option-cases, if◌then◌else◌,
  if_intro,
}
use v_ubercool.Http.Parser.{Token}
use v_ubercool.Http.Lexer.{
  OctetSet, Pattern, exactly, some_of, LexerState, initial, uri_state, http_version, header_name,
  header_content, header_dnt, accept_encoding, LexerRule, rules, exact_size, run_size, pattern_size,
  one_more, Matched, longer, match_of, longest, Lexeme, lexeme, next_token, tokens_after,
  tokens_from, lexed,
}
use v_ubercool.Http.Lexer.Scan.{Reads}

-- The tokens of a text from a state on.
pub data Lexes : LexerState → Bytes → List Token → Type 0 where
  at_end : {s : LexerState} {text : Bytes} → next_token s text ≡ none → Lexes s text []
  reads :
      {s s' : LexerState} {text rest : Bytes} {t : Token} {ts : List Token}
      → Reads s text t s' rest
      → Lexes s' rest ts
      → Lexes s text (t ∷ ts)

-- A pattern takes an octet or more, and none that is not there.
Takes : Bytes → Option ℕ → Type 0
Takes text none = Unit
Takes text (some n) = (0 < n) × (n ≤ length text)

IsProper : Pattern → Type 0
IsProper (exactly []) = ⊥
IsProper _ = Unit

exact_size-le :
    (ss : List OctetSet) (text : Bytes) {n : ℕ}
    → exact_size ss text ≡ some n
    → (length ss ≡ n) × (n ≤ length text)
unfolding exact_size one_more
exact_size-le [] text h = ground arith
exact_size-le (s ∷ ss) [] h = cc
exact_size-le (s ∷ ss) (c ∷ text) {n} h = elim (Bool-cases (s c)) [
  | inl t ↦
      let k = rw (t, exact_size) at h in
      elim (Option-cases (exact_size ss text)) [
        | inl e ↦ absurd (let j = rw (e, one_more) at k in let x : ⊥ = cc in x)
        | inr (m, e) ↦
            let j = rw (e, one_more) at k in
            let same : suc m ≡ n = ground arith in
            let rec = exact_size-le ss text e in
            (omega (arith, same, rec.0), omega (arith, same, rec.1))
      ]
  | inr f ↦ absurd (let k = rw (f, exact_size) at h in let x : ⊥ = cc in x)
]

run_size-le : (s : OctetSet) (text : Bytes) → run_size s text ≤ length text
unfolding run_size
run_size-le s [] = omega arith
run_size-le s (c ∷ text) = elim (Bool-cases (s c)) [
  | inl t ↦ rw (t, run_size) (omega (arith, run_size-le s text))
  | inr f ↦ rw (f, run_size) (omega arith)
]

exact_size-Takes :
    (s : OctetSet) (ss : List OctetSet) (text : Bytes) → Takes text (exact_size (s ∷ ss) text)
unfolding Takes
exact_size-Takes s ss text = elim (Option-cases (exact_size (s ∷ ss) text)) [
  | inl e ↦ rw e tt
  | inr (n, e) ↦ let k = exact_size-le (s ∷ ss) text e in rw e (omega (arith, k.0), k.1)
]

run-Takes : (text : Bytes) (n : ℕ) → n ≤ length text → Takes text (if n == 0 then none else some n)
unfolding Takes
run-Takes text n h = if_intro (Takes text) (n == 0) none (some n) (λ _. tt) (λ f. (ground arith, h))

pattern_size-Takes : (p : Pattern) (text : Bytes) → IsProper p → Takes text (pattern_size p text)
unfolding pattern_size IsProper
pattern_size-Takes (exactly []) text h = absurd h
pattern_size-Takes (exactly (s ∷ ss)) text h = exact_size-Takes s ss text
pattern_size-Takes (some_of s) text h = run-Takes text (run_size s text) (run_size-le s text)

TakesMatched : Bytes → Option Matched → Type 0
TakesMatched text none = Unit
TakesMatched text (some p) = (0 < p.size) × (p.size ≤ length text)

match_of-Takes :
    (text : Bytes) (r : LexerRule) (o : Option ℕ) → Takes text o → TakesMatched text (match_of r o)
unfolding match_of Takes TakesMatched
match_of-Takes text r none h = tt
match_of-Takes text r (some n) h = h

longer-Takes :
    (text : Bytes) (o q : Option Matched)
    → TakesMatched text o
    → TakesMatched text q
    → TakesMatched text (longer o q)
unfolding longer TakesMatched
longer-Takes text none q h k = k
longer-Takes text (some p) none h k = h
longer-Takes text (some p) (some q) h k = elim (Bool-cases (ltb p.size q.size)) [
  | inl t ↦ rw (t, longer) k
  | inr f ↦ rw (f, longer) h
]

longest-Takes :
    (rs : List LexerRule) (text : Bytes)
    → All (λ (r : LexerRule). IsProper r.pattern_of) rs
    → TakesMatched text (longest rs text)
unfolding longest TakesMatched
longest-Takes [] text h = tt
longest-Takes (r ∷ rs) text h =
    longer-Takes text _ _ (match_of-Takes text r _ (pattern_size-Takes r.pattern_of text h.0))
      (longest-Takes rs text h.1)

rules-IsProper : (s : LexerState) → All (λ (r : LexerRule). IsProper r.pattern_of) (rules s)
unfolding rules IsProper
rules-IsProper initial = (tt, (tt, (tt, (tt, (tt, (tt, (tt, (tt, (tt, (tt, tt))))))))))
rules-IsProper uri_state = (tt, (tt, tt))
rules-IsProper http_version = (tt, (tt, (tt, tt)))
rules-IsProper header_name = (tt, (tt, (tt, (tt, (tt, (tt, tt))))))
rules-IsProper header_content = (tt, (tt, (tt, (tt, tt))))
rules-IsProper header_dnt = (tt, (tt, (tt, (tt, tt))))
rules-IsProper accept_encoding = (tt, (tt, (tt, (tt, (tt, (tt, (tt, tt)))))))

-- What is behind a token is shorter.
Shrinks : Bytes → Option Lexeme → Type 0
Shrinks text none = Unit
Shrinks text (some x) = length x.text_after < length text

lexeme-Shrinks :
    (text : Bytes) (o : Option Matched) → TakesMatched text o → Shrinks text (lexeme text o)
unfolding lexeme TakesMatched Shrinks
lexeme-Shrinks text none h = tt
lexeme-Shrinks text (some p) h = omega (arith, h.0, h.1, length-drop p.size text)

next_token-Shrinks : (s : LexerState) (text : Bytes) → Shrinks text (next_token s text)
unfolding next_token
next_token-Shrinks s text = lexeme-Shrinks text _ (longest-Takes (rules s) text (rules-IsProper s))

Reads-lt :
    (s s' : LexerState) (text rest : Bytes) (t : Token)
    → Reads s text t s' rest
    → length rest < length text
unfolding Shrinks
Reads-lt s s' text rest t h = subst (Shrinks text) h (next_token-Shrinks s text)

-- The relation gives the tokens of the function,
pub Lexes-tokens_from :
    {s : LexerState} {text : Bytes} {ts : List Token} (n : ℕ)
    → Lexes s text ts
    → length text < n
    → tokens_from n s text ≡ ts
unfolding tokens_from tokens_after
Lexes-tokens_from zero l h = absurd (omega (arith, h))
Lexes-tokens_from (suc n) (at_end e) h = ap (tokens_after _) e
Lexes-tokens_from (suc n) (reads {s} {s'} {text} {rest} {t} {ts} r l) h =
    ap (tokens_after (λ x. tokens_from n x.state_after x.text_after)) r
    ∙ ap (◌∷◌ t) (Lexes-tokens_from n l (omega (arith, h, Reads-lt s s' text rest t r)))

tokens_behind_lexeme :
    (s : LexerState) (text : Bytes) (more : Lexeme → List Token) (o : Option Lexeme)
    → next_token s text ≡ o
    → Shrinks text o
    → ((x : Lexeme) → length x.text_after < length text → Lexes x.state_after x.text_after (more x))
    → Lexes s text (tokens_after more o)
unfolding tokens_after Shrinks
tokens_behind_lexeme s text more none e h f = at_end e
tokens_behind_lexeme s text more (some x) e h f = reads e (f x h)

-- and every text has tokens.
pub tokens_from-Lexes :
    (n : ℕ) (s : LexerState) (text : Bytes) → length text < n → Lexes s text (tokens_from n s text)
unfolding tokens_from
tokens_from-Lexes zero s text h = absurd (omega (arith, h))
tokens_from-Lexes (suc n) s text h =
    tokens_behind_lexeme s text _ (next_token s text) refl (next_token-Shrinks s text)
      (λ x k. tokens_from-Lexes n x.state_after x.text_after (omega (arith, h, k)))

-- The tokens behind the header of a request.
pub tokens_behind : Bytes → List Token
tokens_behind rest = tokens_from (suc (length rest)) header_name rest

pub tokens_behind-Lexes : (rest : Bytes) → Lexes header_name rest (tokens_behind rest)
unfolding tokens_behind
tokens_behind-Lexes rest = tokens_from-Lexes (suc (length rest)) header_name rest (omega arith)

pub Lexes-lexed : {text : Bytes} {ts : List Token} → Lexes initial text ts → lexed text ≡ ts
unfolding lexed
Lexes-lexed {text} l = Lexes-tokens_from (suc (length text)) l (omega arith)

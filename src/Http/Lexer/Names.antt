-- ===== src/Http/Lexer/Names.antt =====
-- The names of header fields, as `HeaderLexer` (src/httpd/HttpRequestParser.h) reads them.
use v_ubercool.Base.{
  ℕ, suc, ◌<◌, ◌≡◌, refl, ap, inl, inr, Bool, true, false, not, ◌&&◌, Option, none, some, List, [],
  ◌∷◌, ◌++◌, Bytes, codes, length, All, arith, ◌==◌, Bool-cases,
}
use v_ubercool.Http.Parser.{h_any}
use v_ubercool.Http.Lexer.{
  OctetSet, is_name, no_case, exactly, some_of, header_name, pattern_size, rules, exact_size,
  one_more, same_letter, LexerRule, rule,
}
use v_ubercool.Http.Lexer.Scan.{Reads}
use v_ubercool.Http.Lexer.Best.{IsOf, IsBest, skip, beat, win, misses, some_of_size, scan_best}

-- The texts that a pattern takes whole.
abbrev pub fits : List OctetSet → Bytes → Bool
fits [] [] = true
fits (s ∷ ss) (c ∷ text) = s c && fits ss text
fits _ _ = false

-- A pattern without a colon, on a name behind which there is one: it does not match, or it matches less
-- than the name, if it does not fit it.
abbrev IsShorter : Option ℕ → ℕ → Type 0
IsShorter none n = Unit
IsShorter (some k) n = k < n

one_more-IsShorter : (o : Option ℕ) (n : ℕ) → IsShorter o n → IsShorter (one_more o) (suc n)
unfolding one_more
one_more-IsShorter none n h = tt
one_more-IsShorter (some k) n h = omega (arith, h)

exact_size-IsShorter :
    (ss : List OctetSet) (name rest : Bytes)
    → All (λ (s : OctetSet). s 58 ≡ false) ss
    → fits ss name ≡ false
    → IsShorter (exact_size ss (name ++ 58 ∷ rest)) (length name)
unfolding exact_size
exact_size-IsShorter [] [] rest stops h = cc
exact_size-IsShorter [] (c ∷ name) rest stops h = omega arith
exact_size-IsShorter (s ∷ ss) [] rest stops h = rw (stops.0, exact_size) tt
exact_size-IsShorter (s ∷ ss) (c ∷ name) rest stops h = elim (Bool-cases (s c)) [
  | inl t ↦
      rw (t, exact_size)
        (one_more-IsShorter _ (length name) (exact_size-IsShorter ss name rest stops.1 (rw t at h)))
  | inr f ↦ rw (f, exact_size) tt
]

exact_size-colon :
    (last : OctetSet) (ss : List OctetSet) (name rest : Bytes)
    → ((c : ℕ) → is_name c ≡ true → last c ≡ false)
    → All (λ (s : OctetSet). s 58 ≡ false) ss
    → All (λ c. is_name c ≡ true) name
    → fits ss name ≡ false
    → exact_size (ss ++ last ∷ []) (name ++ 58 ∷ rest) ≡ none
unfolding exact_size one_more
exact_size-colon last [] [] rest ends stops names h = cc
exact_size-colon last [] (c ∷ name) rest ends stops names h = rw (ends c names.0, exact_size) refl
exact_size-colon last (s ∷ ss) [] rest ends stops names h = rw (stops.0, exact_size) refl
exact_size-colon last (s ∷ ss) (c ∷ name) rest ends stops names h = elim (Bool-cases (s c)) [
  | inl t ↦
      rw (t, exact_size)
        (ap one_more (exact_size-colon last ss name rest ends stops.1 names.1 (rw t at h)))
  | inr f ↦ rw (f, exact_size) refl
]

-- No set of the pattern has the octet.
abbrev rejects : ℕ → List OctetSet → Bool
rejects c [] = true
rejects c (s ∷ ss) = not (s c) && rejects c ss

rejects-All :
    (c : ℕ) (ss : List OctetSet) → rejects c ss ≡ true → All (λ (s : OctetSet). s c ≡ false) ss
rejects-All c [] h = tt
rejects-All c (s ∷ ss) h =
    let parts : (s c ≡ false) × (rejects c ss ≡ true) = ground arith in
    (parts.0, rejects-All c ss parts.1)

name_misses :
    (c : ℕ)
    → is_name c ≡ true
    → ((c == 13) ≡ false) × ((c == 58) ≡ false) × (same_letter 58 c ≡ false)
unfolding is_name same_letter
name_misses c h = ground arith

IsBest-shorter :
    (text : Bytes) (q : LexerRule) (n : ℕ) (r : LexerRule) (rs : List LexerRule) (o : Option ℕ)
    → pattern_size r.pattern_of text ≡ o
    → IsShorter o n
    → IsBest text q n rs
    → IsBest text q n (r ∷ rs)
IsBest-shorter text q n r rs none h lt b = skip h b
IsBest-shorter text q n r rs (some k) h lt b = beat k h lt b

-- The name of a header field, which is none of those that the grammar knows.
pub record IsOther (name : Bytes) : Type 0 where
  pub named : IsOf is_name name
  pub no_host : fits (no_case (codes "Host")) name ≡ false
  pub no_dnt : fits (no_case (codes "Dnt")) name ≡ false
  pub no_encodings : fits (no_case (codes "Accept-Encoding")) name ≡ false

sized_name :
    (name rest : Bytes)
    → IsOf is_name name
    → pattern_size (some_of is_name) (name ++ 58 ∷ rest) ≡ some (length name)
unfolding is_name
sized_name name rest h = some_of_size is_name name 58 rest h refl

IsOf-All : (s : OctetSet) (text : Bytes) → IsOf s text → All (λ c. s c ≡ true) text
IsOf-All s [] h = absurd h
IsOf-All s (c ∷ text) h = h

host_size :
    (name rest : Bytes)
    → IsOther name
    → IsShorter (pattern_size (exactly (no_case (codes "Host"))) (name ++ 58 ∷ rest)) (length name)
unfolding pattern_size same_letter
host_size name rest o =
    exact_size-IsShorter (no_case (codes "Host")) name rest
      (rejects-All 58 (no_case (codes "Host")) refl) o.no_host

dnt_size :
    (name rest : Bytes)
    → IsOther name
    → pattern_size (exactly (no_case (codes "Dnt:"))) (name ++ 58 ∷ rest) ≡ none
unfolding pattern_size same_letter
dnt_size name rest o =
    exact_size-colon (same_letter 58) (no_case (codes "Dnt")) name rest (λ c h. (name_misses c h).2)
      (rejects-All 58 (no_case (codes "Dnt")) refl) (IsOf-All is_name name o.named) o.no_dnt

encodings_size :
    (name rest : Bytes)
    → IsOther name
    → pattern_size (exactly (no_case (codes "Accept-Encoding:"))) (name ++ 58 ∷ rest) ≡ none
unfolding pattern_size same_letter
encodings_size name rest o =
    exact_size-colon (same_letter 58) (no_case (codes "Accept-Encoding")) name rest
      (λ c h. (name_misses c h).2) (rejects-All 58 (no_case (codes "Accept-Encoding")) refl)
      (IsOf-All is_name name o.named) o.no_encodings

scan_name_named :
    (c : ℕ) (name rest : Bytes)
    → IsOther (c ∷ name)
    → Reads header_name ((c ∷ name) ++ 58 ∷ rest) h_any header_name (58 ∷ rest)
unfolding rules
scan_name_named c name rest o =
    let at = name_misses c (o.named).0 in
    scan_best header_name (c ∷ name) (58 ∷ rest) (rule (some_of is_name) h_any header_name) (
      skip (misses _ _ c _ at.0) (
        IsBest-shorter _ _ _ _ _ _ refl (host_size (c ∷ name) rest o) (
          skip (dnt_size (c ∷ name) rest o) (
            skip (encodings_size (c ∷ name) rest o)
              (win refl (sized_name (c ∷ name) rest o.named) (misses _ _ c _ at.1, tt))))))

pub scan_name :
    (name rest : Bytes)
    → IsOther name
    → Reads header_name (name ++ 58 ∷ rest) h_any header_name (58 ∷ rest)
scan_name [] rest o = absurd o.named
scan_name (c ∷ name) rest o = scan_name_named c name rest o

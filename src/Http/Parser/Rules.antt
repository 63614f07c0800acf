-- ===== src/Http/Parser/Rules.antt =====
-- The combinators of the request grammar (src/httpd/HttpRequestParser.h): what a rule takes, and that a
-- repetition goes on until its rule fails.
use v_ubercool.Base.{
  ℕ, zero, suc, ◌+◌, ◌≤◌, ◌<◌, ◌≡◌, refl, Option, none, some, List, [], ◌∷◌, length, arith,
}
use v_ubercool.Http.Request.{HttpRequest}
use v_ubercool.Http.Parser.{
  Token, Match, Rule, take_one, token, seq_after, ◌>>◌, alt_after, ◌<|>◌, many_after, many, star,
}

-- A match of `ts` that has taken `k` tokens or more.
unfoldable pub Takes : ℕ → List Token → Match → Type 0
Takes k ts (none, req) = Unit
Takes k ts (some rest, req) = length rest + k ≤ length ts

abbrev pub TakesAll : ℕ → Rule → Type 0
TakesAll k p = (ts : List Token) (req : HttpRequest) → Takes k ts (p ts req)

take_one-Takes :
    (act : Option (HttpRequest → HttpRequest)) (t : Token) (ts : List Token) (req : HttpRequest)
    → Takes 1 (t ∷ ts) (take_one act ts req)
unfolding Takes take_one
take_one-Takes none t ts req = tt
take_one-Takes (some act) t ts req = omega arith

pub token-TakesAll : (act : Token → Option (HttpRequest → HttpRequest)) → TakesAll 1 (token act)
unfolding token Takes
token-TakesAll act [] req = tt
token-TakesAll act (t ∷ ts) req = take_one-Takes (act t) t ts req

pub weaken-Takes :
    (j k : ℕ) (ts us : List Token) (m : Match)
    → Takes j us m
    → length us + k ≤ length ts + j
    → Takes k ts m
unfolding Takes
weaken-Takes j k ts us (none, req) h l = tt
weaken-Takes j k ts us (some rest, req) h l = omega (arith, h, l)

seq_after-Takes :
    (j k : ℕ) (q : Rule) (ts : List Token) (m : Match)
    → TakesAll k q
    → Takes j ts m
    → Takes (j + k) ts (seq_after q m)
unfolding seq_after Takes
seq_after-Takes j k q ts (none, req) h l = tt
seq_after-Takes j k q ts (some us, req) h l =
    weaken-Takes k (j + k) ts us (q us req) (h us req) (omega (arith, l))

pub seq-TakesAll : (j k : ℕ) (p q : Rule) → TakesAll j p → TakesAll k q → TakesAll (j + k) (p >> q)
unfolding ◌>>◌
seq-TakesAll j k p q h l ts req = seq_after-Takes j k q ts (p ts req) l (h ts req)

alt_after-Takes :
    (k : ℕ) (q : Rule) (ts : List Token) (m : Match)
    → TakesAll k q
    → Takes k ts m
    → Takes k ts (alt_after q ts m)
unfolding alt_after
alt_after-Takes k q ts (none, req) h l = h ts req
alt_after-Takes k q ts (some us, req) h l = l

pub alt-TakesAll : (k : ℕ) (p q : Rule) → TakesAll k p → TakesAll k q → TakesAll k (p <|> q)
unfolding ◌<|>◌
alt-TakesAll k p q h l ts req = alt_after-Takes k q ts (p ts req) l (h ts req)

-- How a repetition ends: the rule fails on the tokens that are left, and what its actions have done
-- stays.
pub Stops : Rule → Match → Type 0
Stops p (none, req) = ⊥
Stops p (some rest, req) = (before : HttpRequest) × (p rest before ≡ (none, req))

many_after-Stops :
    (n : ℕ) (p : Rule) (ts : List Token) (req : HttpRequest) (m : Match)
    → Takes 1 ts m
    → length ts < suc n
    → p ts req ≡ m
    → ((us : List Token) (r : HttpRequest) → length us < n → Stops p (many n p us r))
    → Stops p (many_after (many n p) ts m)
unfolding many_after Stops Takes
many_after-Stops n p ts req (none, req1) h l e again = (req, e)
many_after-Stops n p ts req (some rest, req1) h l e again = again rest req1 (omega (arith, l, h))

many-Stops :
    (n : ℕ) (p : Rule) (ts : List Token) (req : HttpRequest)
    → TakesAll 1 p
    → length ts < n
    → Stops p (many n p ts req)
unfolding many
many-Stops zero p ts req h l = absurd (omega (arith, l))
many-Stops (suc n) p ts req h l =
    many_after-Stops n p ts req (p ts req) (h ts req) l refl (λ us r k. many-Stops n p us r h k)

pub star-Stops :
    (p : Rule) (ts : List Token) (req : HttpRequest) → TakesAll 1 p → Stops p (star p ts req)
unfolding star
star-Stops p ts req h = many-Stops (suc (length ts)) p ts req h (omega arith)

many_after-Takes :
    (n : ℕ) (p : Rule) (ts : List Token) (m : Match)
    → Takes 0 ts m
    → TakesAll 0 (many n p)
    → Takes 0 ts (many_after (many n p) ts m)
unfolding many_after Takes
many_after-Takes n p ts (none, req) h again = omega arith
many_after-Takes n p ts (some rest, req) h again =
    weaken-Takes 0 0 ts rest (many n p rest req) (again rest req) (omega (arith, h))

many-TakesAll : (n : ℕ) (p : Rule) → TakesAll 0 p → TakesAll 0 (many n p)
unfolding many Takes
many-TakesAll zero p h ts req = omega arith
many-TakesAll (suc n) p h ts req =
    many_after-Takes n p ts (p ts req) (h ts req) (many-TakesAll n p h)

pub star-TakesAll : (p : Rule) → TakesAll 0 p → TakesAll 0 (star p)
unfolding star
star-TakesAll p h ts req = many-TakesAll (suc (length ts)) p h ts req

pub forget-TakesAll : (k : ℕ) (p : Rule) → TakesAll k p → TakesAll 0 p
forget-TakesAll k p h ts req = weaken-Takes k 0 ts ts (p ts req) (h ts req) (omega arith)

-- Going on is all that more fuel does.
many_after-fuel :
    (n m : ℕ) (p : Rule) (ts : List Token) (r : Match)
    → Takes 1 ts r
    → length ts < suc n
    → ((us : List Token) (req : HttpRequest)
        → length us < n
        → many (m + n) p us req ≡ many n p us req)
    → many_after (many (m + n) p) ts r ≡ many_after (many n p) ts r
unfolding many_after Takes
many_after-fuel n m p ts (none, req) h l again = refl
many_after-fuel n m p ts (some rest, req) h l again = again rest req (omega (arith, l, h))

pub many-fuel :
    (n m : ℕ) (p : Rule) (ts : List Token) (req : HttpRequest)
    → TakesAll 1 p
    → length ts < n
    → many (m + n) p ts req ≡ many n p ts req
unfolding many
many-fuel zero m p ts req h l = absurd (omega (arith, l))
many-fuel (suc n) m p ts req h l =
    let e : m + suc n ≡ suc (m + n) = omega arith in
    rw e (many_after-fuel n m p ts (p ts req) (h ts req) l (λ us r k. many-fuel n m p us r h k))

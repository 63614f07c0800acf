-- ===== src/Dns/Names/Compare.antt =====
-- `ReverseCompare` of src/dnsd/Message.h against the meaning of names.
use v_ubercool.Base.{
  ℕ, zero, suc, ◌+◌, ◌*◌, ◌/◌, ◌%◌, ◌^◌, ◌≤◌, ◌<◌, ◌≡◌, refl, sym, ap, ◌∙◌, subst, inl, inr, Bool,
  true, false, some, List, [], ◌∷◌, Bytes, length, get_elem?, take, drop, lt-get_elem?, arith,
  equal, equal_iff, ltb, ◌==◌, Bool-cases, Option-cases, if_intro, ℤ, pos, negsuc, decrement,
}
use v_ubercool.Dns.Outcome.{Outcome, ok, err, ◌>>=◌}
use v_ubercool.Dns.Names.{
  Compared, label_offset, compare_frag, compare_label, compare_once, reverse_compare,
}
use v_ubercool.Dns.Names.Decode.{Decodes, at_root, at_label, at_jump, Decodes-mono, Decodes-depth}

drop-get_elem? {ℓ} :
    {A : Type ℓ} (xs : List A) (i : ℕ) {x : A}
    → get_elem? xs i ≡ some x
    → drop i xs ≡ x ∷ drop (suc i) xs
drop-get_elem? [] i h = cc
drop-get_elem? (y ∷ xs) zero h = ground arith
drop-get_elem? (y ∷ xs) (suc i) h = drop-get_elem? xs i h

drop-length {ℓ} : {A : Type ℓ} (xs : List A) → drop (length xs) xs ≡ []
drop-length [] = refl
drop-length (x ∷ xs) = drop-length xs

abbrev pub IsOk {ℓ} : {A : Type ℓ} → Outcome A → Type 0
IsOk (ok a) = Unit
IsOk (err e) = ⊥

pub IsOk-map {ℓ κ} :
    {A : Type ℓ} {B : Type κ} (m : Outcome A) (f : A → B) → IsOk m → IsOk (m >>= λ a. ok (f a))
IsOk-map (ok a) f h = tt
IsOk-map (err e) f h = absurd h

-- The state that `SearchForDomainName` starts a comparison in.
abbrev pub unmatched : Compared
unmatched = record { curr_frag = negsuc 0; best_matched_offset = 0 }

module _ (buf : Bytes) (frags : List Bytes) where
  -- A fragment that was matched, and all behind it, stand at the offset remembered.
  abbrev pub Matched : ℕ → Compared → Type 0
  Matched depth r =
      (k : ℕ)
      → r.curr_frag ≡ pos k
      → k < length frags
      → Decodes buf depth r.best_matched_offset (drop k frags) × (r.best_matched_offset < 2 ^ 14)

  -- The fragments from the current one on stand at the label.
  abbrev At : ℕ → ℕ → Compared → Type 0
  At depth off r =
      (k : ℕ) → r.curr_frag ≡ pos k → (k ≤ length frags) × Decodes buf depth off (drop k frags)

  abbrev pub Sound : ℕ → ℕ → Outcome (Bool × Compared) → Type 0
  Sound depth off (err e) = Unit
  Sound depth off (ok (found, r)) = Matched depth r × (found ≡ true → At depth off r)

  Matched-suc : (n : ℕ) (r : Compared) → Matched n r → Matched (suc n) r
  Matched-suc n r m k e lt =
      let (d, s) = m k e lt in (Decodes-mono buf n (suc n) _ _ (omega arith) d, s)

  -- What is left of a round that does not match.
  missed-Sound : (n off : ℕ) (r : Compared) → Matched n r → Sound (suc n) off (ok (false, r))
  missed-Sound n off r m = (Matched-suc n r m, λ e. cc)

  -- A round that matches at fragment `i`.
  found-Sound :
      (n off i : ℕ)
      → off < 2 ^ 14
      → i < length frags
      → Decodes buf n off (drop i frags)
      → Sound n off (ok (true, record { curr_frag = pos i; best_matched_offset = off }))
  found-Sound n off i small lt d = (
    λ k e le. (subst (λ j. Decodes buf n off (drop j frags)) (index e) d, small),
    λ _ k e.
        let same : i ≡ k = index e in
        (omega arith, subst (λ j. Decodes buf n off (drop j frags)) same d),
  )
    where
      index : {k : ℕ} → pos i ≡ pos k → i ≡ k
      index e = ground arith

  module _ (n off len : ℕ) (here : get_elem? buf off ≡ some len) (a : 0 < len) (b : len < 64)
      (small : off < 2 ^ 14) where
    abbrev text : Bytes
    text = take len (drop (off + 1) buf)

    compare_frag-Sound :
        (r : Compared) (i : ℕ)
        → Matched n r
        → Decodes buf n (off + len + 1) (drop (suc i) frags)
        → Sound (suc n) off (ok (compare_frag frags off text r (pos i)))
    unfolding compare_frag
    compare_frag-Sound r i m d = elim (Option-cases (get_elem? frags i)) [
      | inl e ↦ rw (e, compare_frag) (missed-Sound n off r m)
      | inr (frag, e) ↦ elim (Bool-cases (equal frag text)) [
        | inl f ↦
            let parts : drop i frags ≡ text ∷ drop (suc i) frags =
              drop-get_elem? frags i e
              ∙ ap (λ x. x ∷ drop (suc i) frags) ((equal_iff frag text).0 f) in
            rw (e, f, compare_frag)
              (found-Sound (suc n) off i small (lt-get_elem? frags i e)
                (subst (Decodes buf (suc n) off) (sym parts) (at_label here a b refl d)))
        | inr f ↦ rw (e, f, compare_frag) (missed-Sound n off r m)
      ]
    ]

    compare_label-Sound :
        (found : Bool) (r : Compared)
        → Sound n (off + len + 1) (ok (found, r))
        → Sound (suc n) off (ok (compare_label frags off text (found, r)))
    unfolding compare_label
    compare_label-Sound false r (m, d) = missed-Sound n off r m
    compare_label-Sound true r (m, d) = go r.curr_frag refl
      where
        go :
            (c : ℤ)
            → r.curr_frag ≡ c
            → Sound (suc n) off (ok (compare_frag frags off text r (decrement c)))
        go (pos zero) e = (λ k e lt. cc, λ _ k e. cc)
        go (pos (suc i)) e = compare_frag-Sound r i m (d refl (suc i) e).1
        go (negsuc i) e = (λ k e lt. cc, λ _ k e. cc)

  unmatched-Matched : (n : ℕ) → Matched n unmatched
  unmatched-Matched n k e lt = cc

  module _ (short : length buf ≤ 16000) where
    abbrev pub SoundAt : ℕ → ℕ → Outcome (Bool × Compared) → Type 0
    SoundAt n label = Sound n (label_offset label)

    jump-Sound :
        (n off high low : ℕ) (o : Outcome (Bool × Compared))
        → get_elem? buf off ≡ some high
        → 192 ≤ high
        → high < 256
        → get_elem? buf (off + 1) ≡ some low
        → Sound n ((high * 256 + low) % 2 ^ 14) o
        → Sound (suc n) off o
    jump-Sound n off high low (err e) h a b g s = tt
    jump-Sound n off high low (ok (found, r)) h a b g (m, d) =
        (Matched-suc n r m, λ e k f. let (le, at) = d e k f in (le, at_jump h a b g at))

    bottom-Sound :
        (n off : ℕ)
        → get_elem? buf off ≡ some 0
        → Sound (suc n) off (ok (true, record unmatched { curr_frag = pos (length frags) }))
    bottom-Sound n off h =
        let all = subst (Decodes buf (suc n) off) (sym (drop-length frags)) (at_root h) in
        (
          λ k e lt. absurd (ground arith),
          λ _ k e.
              let same : length frags ≡ k = ground arith in
              (omega arith, subst (λ j. Decodes buf (suc n) off (drop j frags)) same all),
        )

    text-Sound :
        (n off len : ℕ) (o : Outcome (Bool × Compared)) (here : get_elem? buf off ≡ some len)
        → 0 < len
        → len < 64
        → off < 2 ^ 14
        → Sound n (off + len + 1) o
        → Sound
            (suc n)
            off
            (o >>= λ back. ok (compare_label frags off (take len (drop (off + 1) buf)) back))
    text-Sound n off len (err e) here a b small s = tt
    text-Sound n off len (ok (found, r)) here a b small s =
        compare_label-Sound n off len here a b small found r s

    zero_octet : (len : ℕ) → (len == 0) ≡ true → len ≡ 0
    zero_octet len h = ground arith

    twice : (x : ℕ) → label_offset (x % 2 ^ 14) ≡ x % 2 ^ 14
    twice x = omega arith

    next_offset :
        (n label len : ℕ)
        → get_elem? buf (label_offset label) ≡ some len
        → ltb len 64 ≡ true
        → label_offset ((label + len + 1) % 2 ^ 16) ≡ label_offset label + len + 1
    next_offset n label len e l =
        let small : len < 64 = ground arith in
        omega (arith, lt-get_elem? buf (label_offset label) e)

    -- Whatever it returns, a comparison remembers only what stands in the buffer.
    pub reverse_compare-Sound :
        (fuel label : ℕ) → SoundAt fuel label (reverse_compare fuel buf frags unmatched label)
    unfolding reverse_compare compare_once
    reverse_compare-Sound zero label = tt
    reverse_compare-Sound (suc n) label = elim (Option-cases (get_elem? buf (label_offset label))) [
      | inl e ↦ rw (e, reverse_compare, compare_once) tt
      | inr (len, e) ↦
          rw (e, reverse_compare, compare_once)
            (if_intro (SoundAt (suc n) label) (len == 0) _ _
              (λ z. bottom-Sound n (label_offset label) (e ∙ ap some (zero_octet len z)))
              λ z.
                if_intro (SoundAt (suc n) label) (ltb len 64) _ _
                  (λ l.
                    text-Sound n (label_offset label) len _ e (ground arith) (ground arith)
                      (omega arith)
                      (rw (next_offset n label len e l) at
                        (reverse_compare-Sound n ((label + len + 1) % 2 ^ 16))))
                  λ l.
                    if_intro (SoundAt (suc n) label) (len / 64 == 3) _ _
                      (λ j. elim (Option-cases (get_elem? buf (label_offset label + 1))) [
                        | inl f ↦ rw f tt
                        | inr (low, f) ↦ rw f (
                            jump-Sound n (label_offset label) len low _ e (ground arith)
                              (ground arith) f
                              (rw (twice (len * 256 + low)) at
                                (reverse_compare-Sound n ((len * 256 + low) % 2 ^ 14))))
                      ])
                      (λ _. missed-Sound n (label_offset label) unmatched (unmatched-Matched n)))
    ]

    once_total :
        (n label : ℕ) {names : List Bytes}
        → Decodes buf (suc n) (label_offset label) names
        → ((label' : ℕ) (names' : List Bytes)
            → Decodes buf n (label_offset label') names'
            → IsOk (reverse_compare n buf frags unmatched label'))
        → IsOk (compare_once (reverse_compare n buf frags unmatched) buf frags unmatched label)
    unfolding compare_once
    once_total n label (at_root e) rec = rw (e, compare_once) tt
    once_total n label (at_label {len = len} {names = ns} e a b t d) rec =
        let nonzero : (len == 0) ≡ false = ground arith in
        let short' : ltb len 64 ≡ true = ground arith in
        let next = next_offset n label len e short' in
        rw (e, compare_once, nonzero, short')
          (IsOk-map _ _ (rec ((label + len + 1) % 2 ^ 16) ns (rw next d)))
    once_total n label (at_jump {high = high} {low = low} {names = ns} e a b f d) rec =
        let nonzero : (high == 0) ≡ false = ground arith in
        let long : ltb high 64 ≡ false = ground arith in
        let pointer : (high / 64 == 3) ≡ true = ground arith in
        rw (e, compare_once, nonzero, long, pointer)
          (rw f (rec ((high * 256 + low) % 2 ^ 14) ns (rw (twice (high * 256 + low)) d)))

    -- In a buffer of at most 16000 octets a comparison with a name that stands there returns, and reads
    -- no octet outside the buffer, with as much fuel as the name has labels and pointers.
    pub reverse_compare_total :
        (fuel label : ℕ) {names : List Bytes}
        → Decodes buf fuel (label_offset label) names
        → IsOk (reverse_compare fuel buf frags unmatched label)
    unfolding reverse_compare
    reverse_compare_total zero label d = absurd (omega (arith, Decodes-depth d))
    reverse_compare_total (suc n) label d =
        once_total n label d (λ label' names' d'. reverse_compare_total n label' d')

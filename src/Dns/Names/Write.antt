-- ===== src/Dns/Names/Write.antt =====
-- Writing a name with compression (`SearchForDomainName` and `WriteDomainName` of
-- src/dnsd/Message.h) against the meaning of names.
use v_ubercool.Base.{
  ℕ, zero, suc, ◌+◌, ◌*◌, ◌/◌, ◌%◌, ◌^◌, ◌≤◌, ◌<◌, ◌≡◌, refl, sym, ap, ◌∙◌, inl, inr, none, some,
  List, [], ◌∷◌, ◌++◌, Bytes, length, length-append, bit_or, test_masks, get_elem?, take, drop,
  arith, ltb, Bool-cases, if_intro, ℤ, pos, negsuc, All, get_elem?-append_right, take-append_length,
  take-append-drop,
}
use mathlib.Core.List.{append_assoc, append-nil}
use v_ubercool.Dns.Outcome.{Outcome, ok, err, Outcome-cases}
use v_ubercool.Dns.Header.{word_bytes}
use v_ubercool.Dns.Names.{
  Compared, label_offset, reverse_compare, Match, improve, is_full, is_better, search_labels,
  search_for_domain_name, label_bytes, name_bytes, append_name,
}
use v_ubercool.Dns.Names.Decode.{Decodes, at_root, at_label, at_jump, Decodes-mono, Decodes-append}
use v_ubercool.Dns.Names.Compare.{
  Matched, Sound, unmatched, reverse_compare-Sound, reverse_compare_total,
}

-- Some name stands at the offset.
abbrev pub HasName : Bytes → ℕ → Type 0
HasName buf off = (names : List Bytes) × Decodes buf (length buf) off names

-- Each of the remembered offsets is that of a name in the buffer.
abbrev pub PointsAtNames : Bytes → List ℕ → Type 0
PointsAtNames buf = All (λ p. HasName buf (label_offset p))

-- A match is a fragment of the name and an offset at which it stands with all behind it.
abbrev pub MatchIsSound : Bytes → List Bytes → Match → Type 0
MatchIsSound buf frags none = Unit
MatchIsSound buf frags (some (i, off)) =
    (i < length frags) × (off < 2 ^ 14) × Decodes buf (length buf) off (drop i frags)

abbrev Finds : Bytes → List Bytes → Outcome Match → Type 0
Finds buf frags (ok m) = MatchIsSound buf frags m
Finds buf frags (err e) = ⊥

module _ (buf : Bytes) (frags : List Bytes) where
  improve-IsSound :
      (best : Match) (r : Compared) (c : ℤ)
      → r.curr_frag ≡ c
      → Matched buf frags (length buf) r
      → MatchIsSound buf frags best
      → MatchIsSound buf frags (improve frags best r c)
  unfolding improve
  improve-IsSound best r (negsuc n) e m s = s
  improve-IsSound best r (pos i) e m s = elim (Bool-cases (ltb i (length frags))) [
    | inl lt ↦ rw lt (
        if_intro (MatchIsSound buf frags) (is_better i best) _ _
          (λ _. let (d, small) = m i e (ground arith) in (ground arith, small, d)) (λ _. s))
    | inr ge ↦ rw ge s
  ]

  search_labels-Finds :
      length buf ≤ 16000
      → (points : List ℕ) (best : Match) → PointsAtNames buf points
      → MatchIsSound buf frags best
      → Finds buf frags (search_labels buf frags points best)
  unfolding search_labels
  search_labels-Finds short [] best a s = s
  search_labels-Finds short (p ∷ points) best a s =
      elim (Outcome-cases (reverse_compare (length buf) buf frags unmatched p)) [
        | inl (back, e) ↦
            let (m, _) : Sound buf frags (length buf) (label_offset p) (ok back) =
              rw e at (reverse_compare-Sound buf frags short (length buf) p) in
            let better = improve frags best back.1 back.1.curr_frag in
            let s' = improve-IsSound best back.1 back.1.curr_frag refl m s in
            rw (e, search_labels)
              (elim (Bool-cases (is_full better)) [
                | inl f ↦ rw f s'
                | inr f ↦ rw f (search_labels-Finds short points better a.1 s')
              ])
        | inr (x, e) ↦ absurd (rw e at (reverse_compare_total buf frags short (length buf) p a.0.1))
      ]

drop_append_length {ℓ} :
    {A : Type ℓ} (xs : List A) (x : A) (ys : List A) → drop (length xs + 1) (xs ++ x ∷ ys) ≡ ys
drop_append_length [] x ys = refl
drop_append_length (y ∷ xs) x ys =
    let e : length (y ∷ xs) + 1 ≡ suc (length xs + 1) = omega arith in
    rw e (drop_append_length xs x ys)

get_elem?-append_length {ℓ} :
    {A : Type ℓ} (xs : List A) (x : A) (ys : List A) → get_elem? (xs ++ x ∷ ys) (length xs) ≡ some x
get_elem?-append_length [] x ys = refl
get_elem?-append_length (y ∷ xs) x ys = get_elem?-append_length xs x ys

-- Fragments that a length octet can announce: not empty, and shorter than 64 octets.
abbrev pub Announceable : List Bytes → Type 0
Announceable = All (λ frag. (0 < length frag) × (length frag < 64))

label_bytes-Decodes :
    (buf pre tail : Bytes) (frags rest : List Bytes) (depth : ℕ)
    → Announceable frags
    → buf ≡ pre ++ (label_bytes frags ++ tail)
    → Decodes buf depth (length pre + length (label_bytes frags)) rest
    → Decodes buf (length frags + depth) (length pre) (frags ++ rest)
unfolding label_bytes
label_bytes-Decodes buf pre tail [] rest depth a e d =
    let here : length pre + 0 ≡ length pre = omega arith in
    let deep : 0 + depth ≡ depth = omega arith in rw deep (rw here at d)
label_bytes-Decodes buf pre tail (frag ∷ frags) rest depth a e d =
    let l : length frag % 256 ≡ length frag = omega (arith, a.0.1) in
    let inner = label_bytes frags ++ tail in
    let split : buf ≡ pre ++ length frag ∷ (frag ++ inner) =
      e ∙ rw l (ap (λ x. pre ++ length frag ∷ x) (append_assoc frag (label_bytes frags) tail)) in
    let pre' = pre ++ length frag ∷ frag in
    let e' : buf ≡ pre' ++ inner = split ∙ sym (append_assoc pre (length frag ∷ frag) inner) in
    let next : length pre' ≡ length pre + length frag + 1 =
      omega (arith, length-append pre (length frag ∷ frag)) in
    let past : length pre + length (label_bytes (frag ∷ frags))
        ≡ length pre' + length (label_bytes frags) =
      omega (arith, next, length-append frag (label_bytes frags)) in
    let deep : suc (length frags) + depth ≡ suc (length frags + depth) = omega arith in
    rw deep (
      at_label (ap (λ x. get_elem? x (length pre)) split ∙ get_elem?-append_length pre _ _) a.0.0
        a.0.1
        (sym (
          ap (λ x. take (length frag) (drop (length pre + 1) x)) split
          ∙ ap (take (length frag)) (drop_append_length pre _ _)
          ∙ take-append_length frag inner))
        (rw next at (label_bytes-Decodes buf pre' tail frags rest depth a.1 e' (rw past at d))))

length-label_bytes : (frags : List Bytes) → length frags ≤ length (label_bytes frags)
unfolding label_bytes
length-label_bytes [] = omega arith
length-label_bytes (frag ∷ frags) =
    omega (arith, length-append frag (label_bytes frags), length-label_bytes frags)

All-take {ℓ κ} : {A : Type ℓ} (P : A → Type κ) (n : ℕ) (xs : List A) → All P xs → All P (take n xs)
All-take P zero xs a = tt
All-take P (suc n) [] a = tt
All-take P (suc n) (x ∷ xs) a = (a.0, All-take P n xs a.1)

-- The octets of a name, put behind the buffer, decode to it.
name_bytes-Decodes :
    (buf : Bytes) (frags : List Bytes) (m : Match)
    → Announceable frags
    → MatchIsSound buf frags m
    → let after = buf ++ name_bytes frags m in Decodes after (length after) (length buf) frags
unfolding name_bytes
name_bytes-Decodes buf frags none a s =
    let labels = label_bytes frags in
    let after = buf ++ (labels ++ 0 ∷ []) in
    let end : get_elem? after (length buf + length labels) ≡ some 0 =
      get_elem?-append_right buf _ (length labels) ∙ get_elem?-append_length labels 0 [] in
    let d = label_bytes-Decodes after buf (0 ∷ []) frags [] 1 a refl (at_root end) in
    let enough : length frags + 1 ≤ length after = omega (
      arith,
      length-append buf (labels ++ 0 ∷ []),
      length-append labels (0 ∷ []),
      length-label_bytes frags,
    ) in
    rw append-nil at (Decodes-mono after _ _ _ _ enough d)
name_bytes-Decodes buf frags (some (i, off)) a (lt, small, d) =
    let word = bit_or off 0xC000 in
    let w : word ≡ 49152 + off % 16384 = (test_masks off (omega arith)).7 in
    let first = take i frags in
    let labels = label_bytes first in
    let more = labels ++ word_bytes word in
    let after = buf ++ more in
    let high : get_elem? after (length buf + length labels) ≡ some (word / 256 % 256) =
      get_elem?-append_right buf _ (length labels) ∙ get_elem?-append_length labels _ _ in
    let shift : length buf + length labels + 1 ≡ length buf + (length labels + 1) = omega arith in
    let low : get_elem? after (length buf + length labels + 1) ≡ some (word % 256) = rw shift (
      get_elem?-append_right buf _ (length labels + 1)
      ∙ get_elem?-append_right labels (word_bytes word) 1) in
    let target : (word / 256 % 256 * 256 + word % 256) % 2 ^ 14 ≡ off = omega (arith, w) in
    let pointer : Decodes after (suc (length buf)) (length buf + length labels) (drop i frags) =
      at_jump high (omega (arith, w)) (omega arith) low (rw target (Decodes-append more d)) in
    let whole =
      label_bytes-Decodes after buf (word_bytes word) first (drop i frags) (suc (length buf))
        (All-take _ i frags a) refl pointer in
    let enough : length first + suc (length buf) ≤ length after = omega (
      arith,
      length-append buf more,
      length-append labels (word_bytes word),
      length-label_bytes first,
    ) in
    rw (take-append-drop i frags) at (Decodes-mono after _ _ _ _ enough whole)

-- A name is always written, compressed or not, and what is appended decodes, by pointers into the
-- rest of the message where there are any, to exactly the labels that were to be written: for a
-- reply of at most 16000 octets in which every remembered offset is that of a name, and labels of
-- 1 to 63 octets.
pub append_name-Decodes :
    (buf : Bytes) (points : List ℕ) (frags : List Bytes)
    → length buf ≤ 16000
    → PointsAtNames buf points
    → Announceable frags
    → (more : Bytes) × (append_name buf points frags ≡ ok (buf ++ more))
      × Decodes (buf ++ more) (length (buf ++ more)) (length buf) frags
unfolding append_name search_for_domain_name
append_name-Decodes buf points frags short p a =
    let found : Finds buf frags (search_labels buf frags points none) =
      search_labels-Finds buf frags short points none p tt in
    elim (Outcome-cases (search_labels buf frags points none)) [
      | inl (m, e) ↦
          let s : MatchIsSound buf frags m = rw e at found in
          (name_bytes frags m, rw e, name_bytes-Decodes buf frags m a s)
      | inr (x, e) ↦ absurd (rw e at found)
    ]

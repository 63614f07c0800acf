-- ===== src/Dns/Names/Decode.antt =====
-- What a domain name in a message means, after RFC 1035 4.1.4 and independent of the code that
-- writes names (src/dnsd/Message.h).
use v_ubercool.Base.{
  ℕ, zero, suc, ◌+◌, ◌*◌, ◌%◌, ◌^◌, ◌≤◌, ◌<◌, ◌≡◌, refl, sym, ap, ◌∙◌, some, List, [], ◌∷◌, ◌++◌,
  Bytes, length, get_elem?, take, drop, get_elem?-append_left, lt-get_elem?, arith,
}

-- The octets at `off` decode to the labels `names`, in at most `depth` labels and pointers: a
-- length octet and its text, a pointer, or the root label.
pub data Decodes (buf : Bytes) : ℕ → ℕ → List Bytes → Type 0 where
  at_root : {depth off : ℕ} → get_elem? buf off ≡ some 0 → Decodes buf (suc depth) off []
  at_label :
      {depth off len : ℕ} {text : Bytes} {names : List Bytes}
      → get_elem? buf off ≡ some len
      → 0 < len
      → len < 64
      → text ≡ take len (drop (off + 1) buf)
      → Decodes buf depth (off + len + 1) names
      → Decodes buf (suc depth) off (text ∷ names)
  at_jump :
      {depth off high low : ℕ} {names : List Bytes}
      → get_elem? buf off ≡ some high
      → 192 ≤ high
      → high < 256
      → get_elem? buf (off + 1) ≡ some low
      → Decodes buf depth ((high * 256 + low) % 2 ^ 14) names
      → Decodes buf (suc depth) off names

pub Decodes-depth :
    {buf : Bytes} {depth off : ℕ} {names : List Bytes} → Decodes buf depth off names → 0 < depth
Decodes-depth (at_root e) = omega arith
Decodes-depth (at_label e a b t d) = omega arith
Decodes-depth (at_jump e a b f d) = omega arith

pub Decodes-mono :
    (buf : Bytes) (depth depth' off : ℕ) (names : List Bytes)
    → depth ≤ depth'
    → Decodes buf depth off names
    → Decodes buf depth' off names
Decodes-mono buf depth zero off names h d = absurd (omega (arith, Decodes-depth d))
Decodes-mono buf depth (suc depth') off names h (at_root e) = at_root e
Decodes-mono buf depth (suc depth') off names h (at_label {depth = n} e a b t d) =
    at_label e a b t (Decodes-mono buf n depth' _ _ (omega arith) d)
Decodes-mono buf depth (suc depth') off names h (at_jump {depth = n} e a b f d) =
    at_jump e a b f (Decodes-mono buf n depth' _ _ (omega arith) d)

pub Decodes-lt :
    {buf : Bytes} {depth off : ℕ} {names : List Bytes}
    → Decodes buf depth off names
    → off < length buf
Decodes-lt {buf} (at_root {off = o} e) = lt-get_elem? buf o e
Decodes-lt {buf} (at_label {off = o} e a b t d) = lt-get_elem? buf o e
Decodes-lt {buf} (at_jump {off = o} e a b f d) = lt-get_elem? buf o e

-- Text that lies inside the buffer stays when octets are appended.
take-drop-append :
    (n m : ℕ) (xs ys : Bytes) → m + n ≤ length xs → take n (drop m (xs ++ ys)) ≡ take n (drop m xs)
take-drop-append zero zero xs ys h = refl
take-drop-append (suc n) zero [] ys h = absurd (omega arith)
take-drop-append (suc n) zero (x ∷ xs) ys h =
    ap (◌∷◌ x) (take-drop-append n zero xs ys (omega arith))
take-drop-append n (suc m) [] ys h = absurd (omega arith)
take-drop-append n (suc m) (x ∷ xs) ys h = take-drop-append n m xs ys (omega arith)

-- A name keeps its meaning when the message grows.
pub Decodes-append :
    {buf : Bytes} (more : Bytes) {depth off : ℕ} {names : List Bytes}
    → Decodes buf depth off names
    → Decodes (buf ++ more) depth off names
Decodes-append {buf} more (at_root {off = o} e) = at_root (get_elem?-append_left buf more o e)
Decodes-append {buf} more (at_label {off = o} {len = n} e a b t d) =
    at_label (get_elem?-append_left buf more o e) a b
      (t ∙ sym (take-drop-append n (o + 1) buf more (omega (arith, Decodes-lt d))))
      (Decodes-append more d)
Decodes-append {buf} more (at_jump {off = o} e a b f d) =
    at_jump (get_elem?-append_left buf more o e) a b (get_elem?-append_left buf more (o + 1) f)
      (Decodes-append more d)

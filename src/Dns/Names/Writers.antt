-- ===== src/Dns/Names/Writers.antt =====
-- `WriteDomainName` with the list of remembered offsets, src/dnsd/Message.h.
use v_ubercool.Base.{
  ℕ, ◌/◌, ◌%◌, ◌^◌, ◌≤◌, ◌<◌, ◌≡◌, sym, ap, ◌∙◌, some, List, [], ◌∷◌, ◌++◌, Bytes, length,
  length-append, arith, All-append, get_elem?, bit_or, test_masks, ◌==◌, if◌then◌else◌, if_intro,
  get_elem?_of_lt,
}
use mathlib.Core.List.{append_assoc, append-nil}
use v_ubercool.Dns.Outcome.{ok, >>=-eq-ok}
use v_ubercool.Dns.Header.{word_at}
use v_ubercool.Dns.Names.{
  Writer, append_name, write_domain_name, add_label_for_compression, search_for_domain_name,
  name_bytes, to_fragments, qualified, label_offset, is_member,
}
use v_ubercool.Dns.Names.Decode.{Decodes, Decodes-lt, Decodes-append, Decodes-mono}
use v_ubercool.Dns.Names.Write.{HasName, PointsAtNames, Announceable, append_name-Decodes}

-- The second buffer begins with the first.
abbrev pub Extends : Bytes → Bytes → Type 0
Extends before after = (more : Bytes) × (after ≡ before ++ more)

pub Extends-refl : (x : Bytes) → Extends x x
Extends-refl x = ([], sym (append-nil x))

pub Extends-trans : (x y z : Bytes) → Extends x y → Extends y z → Extends x z
Extends-trans x y z (m, e) (n, f) = (m ++ n, f ∙ ap (λ b. b ++ n) e ∙ append_assoc x m n)

pub write_domain_name-Extends :
    (w : Writer) (name : Bytes) (zone : List Bytes) {w' : Writer}
    → write_domain_name w name zone ≡ ok w'
    → Extends w.buffer w'.buffer
unfolding write_domain_name append_name
write_domain_name-Extends w name zone {w'} h =
    let frags = to_fragments (qualified name zone) in
    let (b, e, f) = >>=-eq-ok (append_name w.buffer w.points frags) _ h in
    let (m, g, k) = >>=-eq-ok (search_for_domain_name w.buffer frags w.points) _ e in
    let (p, _, j) =
      >>=-eq-ok (add_label_for_compression (length w.buffer % 2 ^ 16) b w.points) _ f in
    let same : b ≡ w'.buffer = ground arith in
    let built : w.buffer ++ name_bytes frags m ≡ b = ground arith in
    (name_bytes frags m, sym same ∙ sym built)

HasName-append : (buf more : Bytes) (off : ℕ) → HasName buf off → HasName (buf ++ more) off
HasName-append buf more off (names, d) = (
  names,
  Decodes-mono (buf ++ more) _ _ _ _ (omega (arith, length-append buf more))
      (Decodes-append more d),
)

pub PointsAtNames-append :
    (buf more : Bytes) (ps : List ℕ) → PointsAtNames buf ps → PointsAtNames (buf ++ more) ps
PointsAtNames-append buf more [] h = tt
PointsAtNames-append buf more (p ∷ ps) h =
    (HasName-append buf more _ h.0, PointsAtNames-append buf more ps h.1)

-- Every remembered offset is that of a name.
abbrev pub IsSound : Writer → Type 0
IsSound w = PointsAtNames w.buffer w.points

masked : (off : ℕ) → off < 16384 → label_offset (bit_or off 0xC000) ≡ off
masked off h = omega (arith, (test_masks off (omega arith)).7)

-- A name is remembered at its offset.
pub add_label-PointsAtNames :
    (off : ℕ) (buf : Bytes) (ps : List ℕ)
    → off < 16384
    → HasName buf off
    → PointsAtNames buf ps
    → (qs : List ℕ) × (add_label_for_compression off buf ps ≡ ok qs) × PointsAtNames buf qs
unfolding add_label_for_compression
add_label-PointsAtNames off buf ps small name h =
    let my_offset = bit_or off 0xC000 in
    let at = masked off small in
    let (b, e) = get_elem?_of_lt buf off (Decodes-lt name.1) in
    let e' : get_elem? buf (label_offset my_offset) ≡ some b = rw at e in
    let dst = if b / 64 == 3 then word_at buf (label_offset my_offset) else my_offset in
    (
      if is_member dst ps then ps else ps ++ my_offset ∷ [],
      rw (e', add_label_for_compression),
      if_intro (PointsAtNames buf) (is_member dst ps) _ _ (λ _. h)
          (λ _. All-append (λ p. HasName buf (label_offset p)) ps _ h (rw at name, tt)),
    )

-- In a reply of at most 15000 octets in which every remembered offset is that of a name, a name
-- whose labels have 1 to 63 octets is always written; what is appended decodes to the labels of the
-- name and of its zone, and every offset that is then remembered is again that of a name.
pub write_domain_name-IsSound :
    (w : Writer) (name : Bytes) (zone : List Bytes)
    → length w.buffer ≤ 15000
    → IsSound w
    → Announceable (to_fragments (qualified name zone))
    → (w' : Writer) × (write_domain_name w name zone ≡ ok w')
      × IsSound w'
      × Decodes w'.buffer (length w'.buffer) (length w.buffer) (to_fragments (qualified name zone))
unfolding write_domain_name
write_domain_name-IsSound w name zone short s a =
    let frags = to_fragments (qualified name zone) in
    let (more, e, d) = append_name-Decodes w.buffer w.points frags (omega arith) s a in
    let after = w.buffer ++ more in
    let (qs, f, s') =
      add_label-PointsAtNames (length w.buffer) after w.points (omega arith) (frags, d)
        (PointsAtNames-append w.buffer more w.points s) in
    let small : length w.buffer % 2 ^ 16 ≡ length w.buffer = omega arith in
    (record { buffer = after; points = qs }, rw (e, small, f), s', d)

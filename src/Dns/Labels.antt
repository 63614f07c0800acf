-- ===== src/Dns/Labels.antt =====
-- `LabelHeader` of src/dnsd/Message.h: the domain name in front of a question.
-- `mem` is the message buffer with all that it holds, also behind the octets received; a pointer
-- into it is an offset. `matches` is the match against the pattern of legal label texts, which
-- boost::regex makes. `order` is the byte order of the machine.
pub mod Bounds
pub mod Fuel
pub mod Known
pub mod Pointers
use v_ubercool.Base.{
  ℕ, zero, suc, ◌+◌, ◌*◌, ◌/◌, ◌%◌, ◌^◌, Bool, true, false, not, ◌&&◌, Option, none, some, List, [],
  ◌∷◌, ◌++◌, Bytes, get_elem?, take, drop, ltb, leb, ◌==◌, if◌then◌else◌, ◌<◌, ◌≡◌, refl, inl, inr,
  arith, Bool-cases, Option-cases,
}
use v_ubercool.Dns.Outcome.{
  Error, label_header_exception, no_labels, illegal_label, illegal_pointer, out_of_bounds,
  out_of_fuel, Outcome, ok, err, ◌>>=◌,
}

pub data ByteOrder : Type 0 where
  little big : ByteOrder

-- A `string_ref` into the message buffer.
pub record Label : Type 0 where
  pub pos : ℕ
  pub len : ℕ

abbrev pub label_text : Bytes → Label → Bytes
label_text mem l = take l.len (drop l.pos mem)

-- `*reinterpret_cast<const uint16_t *>(p)` on two octets.
unfoldable pub native_word : ByteOrder → ℕ → ℕ → ℕ
native_word little b0 b1 = b0 + b1 * 256
native_word big b0 b1 = b0 * 256 + b1

-- The same, `& ~0xC000`.
unfoldable pub pointer_value : ByteOrder → ℕ → ℕ → ℕ
unfolding native_word
pointer_value order b0 b1 = native_word order b0 b1 % 2 ^ 14

unfoldable pub find_pointer : ℕ → List Label → Outcome Label
find_pointer key [] = err illegal_pointer
find_pointer key (v ∷ labels) = if v.pos == key then ok v else find_pointer key labels

-- The variables of the constructor's loop; `size` and `buffer_size` are the members `size_` and
-- `buffer_size_`.
pub record Cursor : Type 0 where
  pub p : ℕ
  pub traversing : Bool
  pub names : List Label
  pub known : List Label
  pub size : ℕ
  pub buffer_size : ℕ

-- What one round of the loop does: leave by `break`, or go on.
pub data Round : Type 0 where
  leave : Cursor → Round
  go_on : Cursor → Round

-- `ValidateSize`, in front of what follows it.
abbrev validated {ℓ} : {A : Type ℓ} → ℕ → Outcome A → Outcome A
validated size next = if ltb 255 size then err label_header_exception else next

abbrev counted : Cursor → ℕ → ℕ
counted c n = if c.traversing then c.buffer_size else c.buffer_size + n

abbrev is_nil {ℓ} : {A : Type ℓ} → List A → Bool
is_nil [] = true
is_nil (x ∷ xs) = false

root_label : Cursor → Outcome Round
root_label c = validated (c.size + 1) (
    if is_nil c.names
    then err no_labels
    else ok (leave (record c { size = c.size + 1; buffer_size = counted c 1 })))

-- The loop's variables at its start.
abbrev pub start_cursor : ℕ → List Label → Cursor
start_cursor buffer known = record {
  p = buffer;
  traversing = false;
  names = [];
  known = known;
  size = 0;
  buffer_size = 0;
}

-- The text that a pointer leads to is read next; what stands behind it follows.
follow : Cursor → Label → Round
follow c target = go_on (record c {
  p = target.pos + target.len;
  size = c.size + 2;
  buffer_size = counted c 2;
  names = c.names ++ target ∷ [];
  traversing = true;
})

module _ (matches : Bytes → Bool) (order : ByteOrder) (mem : Bytes) where
  -- A label of `len` octets; `end` is the end of the segment.
  text_label : ℕ → Cursor → ℕ → Outcome Round
  text_label end c len =
      let label : Label = record { pos = c.p + 1; len = len } in
      if ltb end (c.p + 1 + len)
      then err label_header_exception
      else validated (c.size + len) (
          if matches (label_text mem label)
          then ok (
              go_on (record c {
                p = c.p + 1 + len;
                size = c.size + len;
                buffer_size = counted c (len + 1);
                known = if c.traversing then c.known else c.known ++ label ∷ [];
                names = c.names ++ label ∷ [];
              }))
          else err illegal_label)

  -- `b0` is the octet at `p`.
  pointer_label : ℕ → Cursor → ℕ → Outcome Round
  unfolding follow
  pointer_label end c b0 =
      if leb end (c.p + 1)
      then err label_header_exception
      else validated (c.size + 2) (elim (get_elem? mem (c.p + 1)) [
        | none ↦ err out_of_bounds
        | some b1 ↦ elim (find_pointer (pointer_value order b0 b1) c.known) [
          | err e ↦ err e
          | ok target ↦ ok (follow c target)
        ]
      ])

  -- The branches on the octet at `p`.
  on_octet : ℕ → Cursor → ℕ → Outcome Round
  unfolding root_label text_label pointer_label
  on_octet end c b =
      if b == 0
      then root_label c
      else if ltb b 64
      then text_label end c b
      else if b / 64 == 3
      then pointer_label end c b
      else err label_header_exception

  round : ℕ → Cursor → Outcome Round
  unfolding on_octet
  round end c = elim (get_elem? mem c.p) [ none ↦ err out_of_bounds | some b ↦ on_octet end c b ]

  read_labels : ℕ → ℕ → Cursor → Outcome Cursor
  unfolding round
  read_labels zero end c = err out_of_fuel
  read_labels (suc fuel) end c = elim (round end c) [
    | err e ↦ err e
    | ok r ↦ elim r [ leave d ↦ ok d | go_on d ↦ read_labels fuel end d ]
  ]

  -- The constructor, on the segment of `size` octets at `buffer`.
  unfoldable pub label_header : ℕ → ℕ → List Label → Outcome Cursor
  unfolding read_labels
  label_header buffer size known =
      if ltb size 1
      then err label_header_exception
      else read_labels 256 (buffer + size) (start_cursor buffer known)

  -- To prove a property of a round, prove it of each branch on the octet at `p`.
  on_octet_cases {ℓ} :
      (P : Outcome Round → Type ℓ) (end : ℕ) (c : Cursor) (b : ℕ)
      → P (root_label c)
      → (0 < b → b < 64 → P (text_label end c b))
      → P (pointer_label end c b)
      → P (err label_header_exception)
      → P (on_octet end c b)
  unfolding on_octet
  on_octet_cases P end c b root text pointer bad = elim (Bool-cases (b == 0)) [
    | inl e ↦ rw e root
    | inr e ↦ elim (Bool-cases (ltb b 64)) [
      | inl f ↦ rw (e, f) (text (ground arith) (ground arith))
      | inr f ↦ elim (Bool-cases (b / 64 == 3)) [
        | inl g ↦ rw (e, f, g) pointer
        | inr g ↦ rw (e, f, g) bad
      ]
    ]
  ]

  round_cases {ℓ} :
      (P : Outcome Round → Type ℓ) (end : ℕ) (c : Cursor)
      → P (err out_of_bounds)
      → ((b : ℕ) → get_elem? mem c.p ≡ some b → P (on_octet end c b))
      → P (round end c)
  unfolding round
  round_cases P end c outside inside = elim (Option-cases (get_elem? mem c.p)) [
    | inl e ↦ rw (e, round) outside
    | inr (b, e) ↦ rw (e, round) (inside b e)
  ]

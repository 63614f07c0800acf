-- ===== src/Dns/Labels/Pointers.antt =====
-- Compression pointers in a question, src/dnsd/Message.h: what `FindPointer` looks for against what
-- RFC 1035 writes, an offset of a length octet with its high octet first.
use v_ubercool.Base.{
  ℕ, ◌+◌, ◌*◌, ◌%◌, ◌≤◌, ◌<◌, ◌≡◌, ◌↔◌, ◌⊎◌, refl, Bool, false, suc, some, List, [], ◌∷◌, Bytes,
  get_elem?, All, inl, inr, arith, ltb, leb,
}
use v_ubercool.Dns.Outcome.{illegal_pointer, err, Error}
use v_ubercool.Dns.Labels.{
  ByteOrder, little, big, Label, pointer_value, find_pointer, label_header, read_labels, round,
  start_cursor, Cursor,
}

-- The offset that a pointer of the two octets encodes.
abbrev pub pointer_target : ℕ → ℕ → ℕ
pointer_target b0 b1 = b0 % 64 * 256 + b1

-- For a pointer (two octets, the first of them 192 or more) a big-endian machine reads the offset
-- that is encoded. A little-endian one reads it exactly if the two octets are equal.
pub pointer_value_orders :
    (b0 b1 : ℕ)
    → 192 ≤ b0
    → b0 < 256
    → b1 < 256
    → (pointer_value big b0 b1 ≡ pointer_target b0 b1)
      × ((pointer_value little b0 b1 ≡ pointer_target b0 b1) ↔ (b0 ≡ b1))
unfolding pointer_value
pointer_value_orders b0 b1 lo hi h = (omega arith, (λ e. omega arith, λ e. omega arith))

find_pointer_missing :
    (key : ℕ) (ls : List Label)
    → All (λ l. (12 < l.pos) × (l.pos < 3264)) ls
    → (key ≤ 12) ⊎ (3264 ≤ key)
    → find_pointer key ls ≡ err illegal_pointer
unfolding find_pointer
find_pointer_missing key [] a h = refl
find_pointer_missing key (l ∷ ls) a h = ground (arith, find_pointer_missing key ls a.1)

first_name_value :
    (o : ByteOrder) → (pointer_value o 0xC0 12 ≤ 12) ⊎ (3264 ≤ pointer_value o 0xC0 12)
unfolding pointer_value
first_name_value little = inr (omega arith)
first_name_value big = inl (omega arith)

module _ (matches : Bytes → Bool) (order : ByteOrder) (mem : Bytes) where
  read_labels_error :
      (fuel end : ℕ) (c : Cursor) {e : Error}
      → round matches order mem end c ≡ err e
      → read_labels matches order mem (suc fuel) end c ≡ err e
  unfolding read_labels
  read_labels_error fuel end c h = rw (h, read_labels)

  pointer_missing :
      (known : List Label)
      → All (λ l. (12 < l.pos) × (l.pos < 3264)) known
      → find_pointer (pointer_value order 0xC0 12) known ≡ err illegal_pointer
  pointer_missing known a = find_pointer_missing _ known a (first_name_value order)

  first_round :
      (buffer size : ℕ) (known : List Label)
      → 2 ≤ size
      → get_elem? mem buffer ≡ some 0xC0
      → get_elem? mem (buffer + 1) ≡ some 12
      → All (λ l. (12 < l.pos) × (l.pos < 3264)) known
      → round matches order mem (buffer + size) (start_cursor buffer known) ≡ err illegal_pointer
  unfolding round
  first_round buffer size known h b0 b1 a =
      let inside : leb (buffer + size) (buffer + 1) ≡ false = ground arith in
      rw (b0, round) (rw (inside, b1, pointer_missing known a))

  -- Every question name that is a pointer to the first name of its message, at offset 12, is
  -- refused as an illegal pointer, on machines of either byte order and whatever labels behind the
  -- message header, in a buffer of at most 3263 octets, are known.
  pub first_name_pointer_refused :
      (buffer size : ℕ) (known : List Label)
      → 2 ≤ size
      → get_elem? mem buffer ≡ some 0xC0
      → get_elem? mem (buffer + 1) ≡ some 12
      → All (λ l. (12 < l.pos) × (l.pos < 3264)) known
      → label_header matches order mem buffer size known ≡ err illegal_pointer
  unfolding label_header
  first_name_pointer_refused buffer size known h b0 b1 a =
      let full : ltb size 1 ≡ false = ground arith in
      rw full (
        read_labels_error 255 (buffer + size) (start_cursor buffer known)
          (first_round buffer size known h b0 b1 a))

-- ===== src/Dns/Labels/Fuel.antt =====
-- The loop of `LabelHeader` (src/dnsd/Message.h) ends.
use v_ubercool.Base.{
  ℕ, zero, suc, ◌+◌, ◌≤◌, ◌<◌, ◌≡◌, ◌≢◌, inl, inr, Bool, List, [], ◌∷◌, Bytes, arith, ◌==◌,
  get_elem?, Bool-cases, Option-cases,
}
use v_ubercool.Dns.Outcome.{Error, out_of_fuel, illegal_pointer, Outcome, ok, err, Outcome-cases}
use v_ubercool.Dns.Labels.{
  ByteOrder, Label, find_pointer, pointer_value, Cursor, Round, leave, go_on, root_label,
  text_label, pointer_label, on_octet, round, on_octet_cases, round_cases, read_labels,
  start_cursor, label_header,
}

pub find_pointer_error :
    (key : ℕ) (ls : List Label) {e : Error} → find_pointer key ls ≡ err e → e ≡ illegal_pointer
unfolding find_pointer
find_pointer_error key [] h = ground arith
find_pointer_error key (l ∷ ls) h = elim (Bool-cases (l.pos == key)) [
  | inl e ↦ ground arith
  | inr e ↦ find_pointer_error key ls (rw (e, find_pointer) at h)
]

-- A round that goes on has added to the size, within its limit; none runs out of fuel.
abbrev Grows : Cursor → Outcome Round → Type 0
Grows c (ok (leave d)) = Unit
Grows c (ok (go_on d)) = (c.size < d.size) × (d.size ≤ 255)
Grows c (err e) = e ≢ out_of_fuel

module _ (matches : Bytes → Bool) (order : ByteOrder) (mem : Bytes) where
  text_label-Grows :
      (end : ℕ) (c : Cursor) (len : ℕ) → 0 < len → Grows c (text_label matches order mem end c len)
  unfolding text_label
  text_label-Grows end c len h = ground arith

  pointer_label-Grows :
      (end : ℕ) (c : Cursor) (b : ℕ) → Grows c (pointer_label matches order mem end c b)
  unfolding pointer_label
  pointer_label-Grows end c b = elim (Option-cases (get_elem? mem (c.p + 1))) [
    | inl e ↦ rw (e, pointer_label) (ground arith)
    | inr (b1, e) ↦ elim (Outcome-cases (find_pointer (pointer_value order b b1) c.known)) [
      | inl (l, f) ↦ rw (e, f, pointer_label) (ground arith)
      | inr (x, f) ↦
          rw (e, f, pointer_label)
            (ground (arith, find_pointer_error (pointer_value order b b1) c.known f))
    ]
  ]

  on_octet-Grows : (end : ℕ) (c : Cursor) (b : ℕ) → Grows c (on_octet matches order mem end c b)
  on_octet-Grows end c b =
      on_octet_cases matches order mem (Grows c) end c b (unfold root_label in ground arith)
        (λ h _. text_label-Grows end c b h) (pointer_label-Grows end c b) (λ e. cc)

  round-Grows : (end : ℕ) (c : Cursor) → Grows c (round matches order mem end c)
  round-Grows end c =
      round_cases matches order mem (Grows c) end c (λ e. cc) (λ b _. on_octet-Grows end c b)

  read_labels_fuel :
      (fuel end : ℕ) (c : Cursor)
      → 256 ≤ fuel + c.size
      → c.size ≤ 255
      → read_labels matches order mem fuel end c ≢ err out_of_fuel
  unfolding read_labels
  read_labels_fuel zero end c h s = absurd (omega arith)
  read_labels_fuel (suc fuel) end c h s = elim (Outcome-cases (round matches order mem end c)) [
    | inl (leave d, e) ↦ rw (e, read_labels) (λ x. cc)
    | inl (go_on d, e) ↦
        let g : Grows c (ok (go_on d)) = rw e at (round-Grows end c) in
        rw (e, read_labels) (read_labels_fuel fuel end d (omega arith) g.1)
    | inr (x, e) ↦
        let g : Grows c (err x) = rw e at (round-Grows end c) in
        rw (e, read_labels) (λ y. g (ground arith))
  ]

  -- Whatever the octets of the message, hostile ones and pointers that lead back included, the
  -- loop over the labels ends within 256 rounds.
  pub label_header_terminates :
      (buffer size : ℕ) (known : List Label)
      → label_header matches order mem buffer size known ≢ err out_of_fuel
  unfolding label_header
  label_header_terminates buffer size known e =
      ground (arith, read_labels_fuel 256 (buffer + size) (start_cursor buffer known))

-- ===== src/Dns/Labels/Bounds.antt =====
-- Where the loop of `LabelHeader` (src/dnsd/Message.h) reads, and what it accepts.
use v_ubercool.Base.{
  ℕ, zero, suc, ◌+◌, ◌*◌, ◌<◌, ◌≤◌, ◌≡◌, ◌≢◌, inl, inr, Bool, false, List, [], ◌∷◌, Bytes, arith,
  ◌==◌, get_elem?, Option-cases, Bool-cases, length, All, All-append, ltb, leb, if_intro, subst,
}
use v_ubercool.Dns.Outcome.{label_header_exception, Outcome, ok, err, Outcome-cases}
use v_ubercool.Dns.Labels.{
  ByteOrder, Label, find_pointer, pointer_value, Cursor, Round, leave, go_on, root_label,
  text_label, pointer_label, round, on_octet_cases, round_cases, read_labels, start_cursor,
  label_header, label_text, is_nil,
}

-- A label inside the message buffer.
abbrev pub InBuffer : Bytes → Label → Type 0
InBuffer mem l = l.pos + l.len ≤ length mem

pub find_pointer-All :
    (P : Label → Type 0) (key : ℕ) (ls : List Label) {l : Label}
    → All P ls
    → find_pointer key ls ≡ ok l
    → P l
unfolding find_pointer
find_pointer-All P key [] a h = cc
find_pointer-All P key (x ∷ ls) {l} a h = elim (Bool-cases (x.pos == key)) [
  | inl e ↦ let same : x ≡ l = ground arith in subst P same a.0
  | inr e ↦ find_pointer-All P key ls a.1 (rw (e, find_pointer) at h)
]

is_nil-ne {ℓ} : {A : Type ℓ} (xs : List A) → is_nil xs ≡ false → xs ≢ []
is_nil-ne [] h e = cc
is_nil-ne (x ∷ xs) h e = cc

module _ (mem : Bytes) (buffer size : ℕ) where
  -- What holds between the rounds.
  record Inv (c : Cursor) : Type 0 where
    here : c.traversing ≡ false → c.p ≡ buffer + c.buffer_size
    used : c.buffer_size ≤ size
    wide : c.buffer_size ≤ 2 * c.size
    total : c.size ≤ 255
    names : All (InBuffer mem) c.names
    known : All (InBuffer mem) c.known

  -- What holds of an accepted name. The octet count may be one too large: the last length octet
  -- is read with no look at the segment's end.
  pub record Accepted (c : Cursor) : Type 0 where
    pub named : c.names ≢ []
    pub used : c.buffer_size ≤ size + 1
    pub wide : c.buffer_size ≤ 509
    pub total : c.size ≤ 255
    pub names : All (InBuffer mem) c.names
    pub known : All (InBuffer mem) c.known

  abbrev After : Outcome Round → Type 0
  After (ok (leave d)) = Accepted d
  After (ok (go_on d)) = Inv d
  After (err e) = Unit

  root_label-After : (c : Cursor) → Inv c → After (root_label c)
  unfolding root_label
  root_label-After c v =
      if_intro After (ltb 255 (c.size + 1)) _ _ (λ _. tt)
        λ small. elim (Bool-cases (is_nil c.names)) [
          | inl e ↦ rw e tt
          | inr e ↦ rw e (record {
            named = is_nil-ne c.names e;
            used = ground (arith, v.used);
            wide = ground (arith, v.wide);
            total = ground arith;
            names = v.names;
            known = v.known;
          })
        ]

  module _ (matches : Bytes → Bool) (order : ByteOrder) (fits : buffer + size ≤ length mem) where
    text_label-After :
        (c : Cursor) (b : ℕ)
        → 0 < b
        → Inv c
        → After (text_label matches order mem (buffer + size) c b)
    unfolding text_label
    text_label-After c b some_octet v =
        let label : Label = record { pos = c.p + 1; len = b } in
        if_intro After (ltb (buffer + size) (c.p + 1 + b)) _ _ (λ _. tt)
          λ inside.
            if_intro After (ltb 255 (c.size + b)) _ _ (λ _. tt)
              λ small.
                if_intro After (matches (label_text mem label)) _ _
                  (λ _.
                    let held : InBuffer mem label = ground arith in
                    record {
                      here = ground (arith, v.here);
                      used = ground (arith, v.here, v.used);
                      wide = ground (arith, v.wide, some_octet);
                      total = ground arith;
                      names = All-append (InBuffer mem) c.names _ v.names (held, tt);
                      known =
                          if_intro (All (InBuffer mem)) c.traversing _ _ (λ _. v.known)
                            (λ _. All-append (InBuffer mem) c.known _ v.known (held, tt));
                    })
                  (λ _. tt)

    pointer_label-After :
        (c : Cursor) (b : ℕ) → Inv c → After (pointer_label matches order mem (buffer + size) c b)
    unfolding pointer_label
    pointer_label-After c b v =
        if_intro After (leb (buffer + size) (c.p + 1)) _ _ (λ _. tt)
          λ inside.
            if_intro After (ltb 255 (c.size + 2)) _ _ (λ _. tt)
              λ small. elim (Option-cases (get_elem? mem (c.p + 1))) [
                | inl e ↦ rw e tt
                | inr (b1, e) ↦
                    elim (Outcome-cases (find_pointer (pointer_value order b b1) c.known)) [
                      | inl (l, f) ↦
                          rw (e, f)
                            (record {
                              here = λ t. cc;
                              used = ground (arith, v.here, v.used);
                              wide = ground (arith, v.wide);
                              total = ground arith;
                              names =
                                  All-append (InBuffer mem) c.names _ v.names
                                    (find_pointer-All (InBuffer mem) _ c.known v.known f, tt);
                              known = v.known;
                            })
                      | inr (x, f) ↦ rw (e, f) tt
                    ]
              ]

    round-After : (c : Cursor) → Inv c → After (round matches order mem (buffer + size) c)
    round-After c v = round_cases matches order mem After _ c tt (λ b _.
        on_octet_cases matches order mem After _ c b (root_label-After c v)
          (λ some_octet _. text_label-After c b some_octet v) (pointer_label-After c b v) tt)

    read_labels-Accepted :
        (fuel : ℕ) (c : Cursor) {d : Cursor}
        → Inv c
        → read_labels matches order mem fuel (buffer + size) c ≡ ok d
        → Accepted d
    unfolding read_labels
    read_labels-Accepted zero c v h = cc
    read_labels-Accepted (suc fuel) c {d = out} v h =
        elim (Outcome-cases (round matches order mem (buffer + size) c)) [
          | inl (leave d, e) ↦
              let a : After (ok (leave d)) = rw e at (round-After c v) in
              let same : ok d ≡ ok out = (rw (e, read_labels) at h) in
              let equal' : d ≡ out = ground arith in subst Accepted equal' a
          | inl (go_on d, e) ↦
              let a : After (ok (go_on d)) = rw e at (round-After c v) in
              read_labels-Accepted fuel d a (rw (e, read_labels) at h)
          | inr (x, e) ↦ let bad : err x ≡ ok out = (rw (e, read_labels) at h) in cc
        ]

    -- A name that is accepted, in a segment inside the message buffer and with known labels inside it,
    -- has at least one label; each of its labels, and of those known after it, lies in the buffer. Its
    -- count `size_`, which takes a label for the octets of its text and a pointer for two, is at most 255.
    -- The octets that it takes of the segment, up to the end of its first pointer or its own end, are at
    -- most 509, and at most one more than the segment has.
    pub label_header-Accepted :
        (known : List Label) {d : Cursor}
        → All (InBuffer mem) known
        → label_header matches order mem buffer size known ≡ ok d
        → Accepted d
    unfolding label_header
    label_header-Accepted known {d} a h = elim (Bool-cases (ltb size 1)) [
      | inl e ↦ let bad : err label_header_exception ≡ ok d = (rw e at h) in cc
      | inr e ↦
          let begin : Inv (start_cursor buffer known) = record {
            here = λ _. omega arith;
            used = omega arith;
            wide = omega arith;
            total = omega arith;
            names = tt;
            known = a;
          } in
          read_labels-Accepted 256 (start_cursor buffer known) begin (rw e at h)
    ]

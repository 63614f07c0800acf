-- ===== src/Dns/Labels/Known.antt =====
-- More known labels change nothing in the reading of a name that was accepted with fewer
-- (`LabelHeader` of src/dnsd/Message.h).
use v_ubercool.Base.{
  ℕ, zero, suc, ◌+◌, ◌/◌, ◌-◌, ◌<◌, ◌≡◌, ◌⊎◌, refl, inl, inr, Bool, true, false, some, List, [],
  ◌∷◌, ◌++◌, Bytes, arith, ◌==◌, get_elem?, Option-cases, Bool-cases, All, All-append, ltb, leb,
  if◌then◌else◌, ap, sym, ◌∙◌, subst,
}
use v_ubercool.Dns.Outcome.{label_header_exception, Outcome, ok, err, Outcome-cases}
use v_ubercool.Dns.Labels.{
  ByteOrder, Label, find_pointer, pointer_value, Cursor, Round, leave, go_on, root_label,
  text_label, pointer_label, on_octet, round, read_labels, start_cursor, label_header, label_text,
  is_nil,
}
use v_ubercool.Dns.Labels.Bounds.{find_pointer-All}

-- The length octet of a label stands in front of its text.
abbrev pub Headed : Bytes → Label → Type 0
Headed mem l = (0 < l.pos) × (get_elem? mem (l.pos - 1) ≡ some l.len)

Headed-unique : (mem : Bytes) (a b : Label) → Headed mem a → Headed mem b → a.pos ≡ b.pos → a ≡ b
Headed-unique mem a b h k e =
    let same : some a.len ≡ some b.len = sym h.1 ∙ ap (λ x. get_elem? mem (x - 1)) e ∙ k.1 in
    ground arith

find_pointer_pos :
    (key : ℕ) (ls : List Label) {l : Label} → find_pointer key ls ≡ ok l → l.pos ≡ key
unfolding find_pointer
find_pointer_pos key [] h = cc
find_pointer_pos key (x ∷ ls) h = elim (Bool-cases (x.pos == key)) [
  | inl e ↦ ground arith
  | inr e ↦ find_pointer_pos key ls (rw (e, find_pointer) at h)
]

-- A label put last is found unless one before it is.
find_pointer-concat :
    (key : ℕ) (ls : List Label) (x : Label) {l : Label}
    → find_pointer key (ls ++ x ∷ []) ≡ ok l
    → (find_pointer key ls ≡ ok l) ⊎ (l ≡ x)
unfolding find_pointer
find_pointer-concat key [] x h = elim (Bool-cases (x.pos == key)) [
  | inl e ↦ inr (ground arith)
  | inr e ↦ ground arith
]
find_pointer-concat key (y ∷ ls) x h = elim (Bool-cases (y.pos == key)) [
  | inl e ↦ inl (ground arith)
  | inr e ↦ elim (find_pointer-concat key ls x (rw (e, find_pointer) at h)) [
    | inl f ↦ inl (rw (e, find_pointer) f)
    | inr f ↦ inr f
  ]
]

find_pointer-append :
    (key : ℕ) (ls ms : List Label) {l : Label}
    → find_pointer key ls ≡ ok l
    → find_pointer key (ls ++ ms) ≡ ok l
unfolding find_pointer
find_pointer-append key [] ms h = cc
find_pointer-append key (y ∷ ls) ms h = elim (Bool-cases (y.pos == key)) [
  | inl e ↦ rw (e, find_pointer) (rw (e, find_pointer) at h)
  | inr e ↦ rw (e, find_pointer) (find_pointer-append key ls ms (rw (e, find_pointer) at h))
]

find_pointer-last :
    (key : ℕ) (ls : List Label) (x : Label)
    → x.pos ≡ key
    → (l : Label) × (find_pointer key (ls ++ x ∷ []) ≡ ok l)
unfolding find_pointer
find_pointer-last key [] x e = (x, ground arith)
find_pointer-last key (y ∷ ls) x e = elim (Bool-cases (y.pos == key)) [
  | inl f ↦ (y, rw (f, find_pointer))
  | inr f ↦ let (l, g) = find_pointer-last key ls x e in (l, rw (f, find_pointer) g)
]

no_label : {A : Type 0} (key : ℕ) {l : Label} → find_pointer key [] ≡ ok l → A
unfolding find_pointer
no_label key h = cc

module _ (mem : Bytes) where
  -- All labels found in the one list are found in the other.
  pub record Extends (k k' : List Label) : Type 0 where
    pub headed : All (Headed mem) k
    pub headed' : All (Headed mem) k'
    pub finds : (key : ℕ) (l : Label) → find_pointer key k ≡ ok l → find_pointer key k' ≡ ok l

  Extends-concat :
      {k k' : List Label} (x : Label)
      → Headed mem x
      → Extends k k'
      → Extends (k ++ x ∷ []) (k' ++ x ∷ [])
  Extends-concat {k} {k'} x h v = record {
    headed = All-append (Headed mem) k _ v.headed (h, tt);
    headed' = both;
    finds = λ key l f. elim (find_pointer-concat key k x f) [
      | inl g ↦ find_pointer-append key k' _ (v.finds key l g)
      | inr g ↦
          let at_key : x.pos ≡ key = ap (λ (y : Label). y.pos) (sym g) ∙ find_pointer_pos key _ f in
          let (m, found) = find_pointer-last key k' x at_key in
          let same : m ≡ x =
            Headed-unique mem m x (find_pointer-All (Headed mem) key _ both found) h
              (find_pointer_pos key _ found ∙ sym at_key) in
          found ∙ ap ok (same ∙ sym g)
    ];
  }
    where
      both : All (Headed mem) (k' ++ x ∷ [])
      both = All-append (Headed mem) k' _ v.headed' (h, tt)

-- `o'` is the outcome of the same round with other known labels, if `o` is no error.
abbrev Follows : Bytes → Outcome Round → Outcome Round → Type 0
Follows mem (ok (leave d)) o' =
    (k : List Label) × (o' ≡ ok (leave (record d { known = k }))) × Extends mem d.known k
Follows mem (ok (go_on d)) o' =
    (k : List Label) × (o' ≡ ok (go_on (record d { known = k }))) × Extends mem d.known k
Follows mem (err e) o' = Unit

if_Follows :
    (mem : Bytes) (b : Bool) (x y x' y' : Outcome Round)
    → (b ≡ true → Follows mem x x')
    → (b ≡ false → Follows mem y y')
    → Follows mem (if b then x else y) (if b then x' else y')
if_Follows mem true x y x' y' h k = h refl
if_Follows mem false x y x' y' h k = k refl

root_label-Follows :
    (mem : Bytes) (c : Cursor) (k : List Label)
    → Extends mem c.known k
    → Follows mem (root_label c) (root_label (record c { known = k }))
unfolding root_label
root_label-Follows mem c k v =
    if_Follows mem (ltb 255 (c.size + 1)) _ _ _ _ (λ _. tt)
      λ _. if_Follows mem (is_nil c.names) _ _ _ _ (λ _. tt) λ _. (k, refl, v)

-- `o` is `d` but for the known labels.
abbrev pub LikeCursor : Bytes → Cursor → Outcome Cursor → Type 0
LikeCursor mem d o = (k : List Label) × (o ≡ ok (record d { known = k })) × Extends mem d.known k

module _ (matches : Bytes → Bool) (order : ByteOrder) (mem : Bytes) (end : ℕ) where
  text_label-Follows :
      (c : Cursor) (k : List Label) (b : ℕ)
      → Extends mem c.known k
      → get_elem? mem c.p ≡ some b
      → Follows mem
          (text_label matches order mem end c b)
          (text_label matches order mem end (record c { known = k }) b)
  unfolding text_label
  text_label-Follows c k b v h =
      let label : Label = record { pos = c.p + 1; len = b } in
      let here : c.p + 1 - 1 ≡ c.p = omega arith in
      let head : Headed mem label = (omega arith, rw here h) in
      if_Follows mem (ltb end (c.p + 1 + b)) _ _ _ _ (λ _. tt)
        λ _.
          if_Follows mem (ltb 255 (c.size + b)) _ _ _ _ (λ _. tt)
            λ _.
              if_Follows mem (matches (label_text mem label)) _ _ _ _
                (λ _. elim (Bool-cases c.traversing) [
                  | inl t ↦ rw t (k, refl, v)
                  | inr t ↦ rw t (k ++ label ∷ [], refl, Extends-concat mem label head v)
                ])
                (λ _. tt)

  pointer_label-Follows :
      (c : Cursor) (k : List Label) (b : ℕ)
      → Extends mem c.known k
      → Follows mem
          (pointer_label matches order mem end c b)
          (pointer_label matches order mem end (record c { known = k }) b)
  unfolding pointer_label
  pointer_label-Follows c k b v =
      if_Follows mem (leb end (c.p + 1)) _ _ _ _ (λ _. tt)
        λ _.
          if_Follows mem (ltb 255 (c.size + 2)) _ _ _ _ (λ _. tt)
            λ _. elim (Option-cases (get_elem? mem (c.p + 1))) [
              | inl e ↦ rw e tt
              | inr (b1, e) ↦
                  elim (Outcome-cases (find_pointer (pointer_value order b b1) c.known)) [
                    | inl (l, f) ↦ rw (e, f, v.finds _ l f) (k, refl, v)
                    | inr (x, f) ↦ rw (e, f) tt
                  ]
            ]

  round-Follows :
      (c : Cursor) (k : List Label)
      → Extends mem c.known k
      → Follows mem
          (round matches order mem end c)
          (round matches order mem end (record c { known = k }))
  unfolding round on_octet
  round-Follows c k v = elim (Option-cases (get_elem? mem c.p)) [
    | inl e ↦ rw (e, round) tt
    | inr (b, e) ↦
        rw (e, round)
          (if_Follows mem (b == 0) _ _ _ _ (λ _. root_label-Follows mem c k v)
            λ _.
              if_Follows mem (ltb b 64) _ _ _ _ (λ _. text_label-Follows c k b v e)
                λ _.
                  if_Follows mem (b / 64 == 3) _ _ _ _ (λ _. pointer_label-Follows c k b v)
                    (λ _. tt))
  ]

  read_labels-known :
      (fuel : ℕ) (c : Cursor) (k : List Label) {d : Cursor}
      → Extends mem c.known k
      → read_labels matches order mem fuel end c ≡ ok d
      → LikeCursor mem d (read_labels matches order mem fuel end (record c { known = k }))
  unfolding read_labels
  read_labels-known zero c k v h = cc
  read_labels-known (suc fuel) c k {d} v h = elim (Outcome-cases (round matches order mem end c)) [
    | inl (leave x, e) ↦
        let (k', f, w) : Follows mem (ok (leave x)) _ = rw e at (round-Follows c k v) in
        let same : ok x ≡ ok d = (rw (e, read_labels) at h) in
        let end_equal : x ≡ d = ground arith in
        subst
          (λ y.
            LikeCursor mem y
              (read_labels matches order mem (suc fuel) end (record c { known = k })))
          end_equal (k', rw (f, read_labels), w)
    | inl (go_on x, e) ↦
        let (k', f, w) : Follows mem (ok (go_on x)) _ = rw e at (round-Follows c k v) in
        rw (f, read_labels) (read_labels-known fuel x k' w (rw (e, read_labels) at h))
    | inr (x, e) ↦ let bad : err x ≡ ok d = (rw (e, read_labels) at h) in cc
  ]

module _ (matches : Bytes → Bool) (order : ByteOrder) (mem : Bytes) where
  -- A name that is accepted with no label known is accepted, and read in the same way but for the
  -- labels known after it, when labels are known, if each of these has its length octet before it.
  pub label_header-known :
      (buffer size : ℕ) (k : List Label) {d : Cursor}
      → All (Headed mem) k
      → label_header matches order mem buffer size [] ≡ ok d
      → LikeCursor mem d (label_header matches order mem buffer size k)
  unfolding label_header
  label_header-known buffer size k {d} a h = elim (Bool-cases (ltb size 1)) [
    | inl e ↦ let bad : err label_header_exception ≡ ok d = (rw e at h) in cc
    | inr e ↦
        let v : Extends mem [] k = record {
          headed = tt;
          headed' = a;
          finds = λ key l f. no_label key f;
        } in
        rw e (
          read_labels-known matches order mem (buffer + size) 256 (start_cursor buffer []) k v
            (rw e at h))
  ]

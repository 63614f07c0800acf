-- ===== src/Dns/Names.antt =====
-- Domain names in a reply, src/dnsd/Message.h: `ToFraments`, and the part of `AnswerBase` that
-- writes names with header compression (`WriteDomainName`, `SearchForDomainName`, `ReverseCompare`
-- and `AddLabelForCompression`). A reply offset is a number below 2 ^ 16.
pub mod Decode
pub mod Compare
pub mod Write
pub mod Writers
use v_ubercool.Base.{
  ℕ, zero, suc, ◌+◌, ◌*◌, ◌/◌, ◌%◌, ◌^◌, Bool, true, false, not, ◌&&◌, ◌||◌, Option, none, some,
  List, [], ◌∷◌, ◌++◌, Bytes, length, get_elem?, take, drop, bit_or, bit_and, ltb, ◌==◌, equal, ℤ,
  pos, negsuc, decrement, if◌then◌else◌,
}
use v_ubercool.Dns.Outcome.{Error, out_of_bounds, out_of_fuel, Outcome, ok, err, ◌>>=◌}
use v_ubercool.Dns.Header.{word_at, word_bytes}

-- The loop of `ToFraments` in the middle of a fragment, of which `frag` is read, or, if it is not
-- `inside` one, at its loop test.
fragments_from : Bool → Bytes → Bytes → List Bytes
fragments_from false frag [] = []
fragments_from true frag [] = frag ∷ []
fragments_from inside frag (c ∷ cs) = elim (c == b'.') [
  | true ↦ frag ∷ fragments_from false [] cs
  | false ↦ fragments_from true (frag ++ c ∷ []) cs
]

unfoldable pub to_fragments : Bytes → List Bytes
unfolding fragments_from
to_fragments domain_name = fragments_from false [] domain_name

-- The output parameters of `ReverseCompare`.
pub record Compared : Type 0 where
  pub curr_frag : ℤ
  pub best_matched_offset : ℕ

-- `label & ~0xC000`.
abbrev pub label_offset : ℕ → ℕ
label_offset label = label % 2 ^ 14

-- On the way back from the labels behind one with the text `my_name` at `offset`.
compare_frag : List Bytes → ℕ → Bytes → Compared → ℤ → Bool × Compared
compare_frag frags offset my_name r (negsuc n) = (true, record r { curr_frag = negsuc n })
compare_frag frags offset my_name r (pos i) = elim (get_elem? frags i) [
  | none ↦ (false, r)
  | some frag ↦
      if equal frag my_name
      then (true, record { curr_frag = pos i; best_matched_offset = offset })
      else (false, r)
]

compare_label : List Bytes → ℕ → Bytes → Bool × Compared → Bool × Compared
unfolding compare_frag
compare_label frags offset my_name (true, r) =
    compare_frag frags offset my_name r (decrement r.curr_frag)
compare_label frags offset my_name (false, r) = (false, r)

-- One call of `ReverseCompare`; `rec` stands for the calls that it makes.
compare_once :
    (ℕ → Outcome (Bool × Compared)) → Bytes → List Bytes → Compared → ℕ → Outcome (Bool × Compared)
unfolding compare_label
compare_once rec buffer frags r label = elim (get_elem? buffer (label_offset label)) [
  | none ↦ err out_of_bounds
  | some len ↦
      if len == 0
      then ok (true, record r { curr_frag = pos (length frags) })
      else if ltb len 64
      then rec ((label + len + 1) % 2 ^ 16) >>= (λ back. ok (
          compare_label frags (label_offset label) (take len (drop (label_offset label + 1) buffer))
            back))
      else if len / 64 == 3
      then elim (get_elem? buffer (label_offset label + 1)) [
        | none ↦ err out_of_bounds
        | some low ↦ rec ((len * 256 + low) % 2 ^ 14)
      ]
      else ok (false, r)
]

unfoldable pub reverse_compare : ℕ → Bytes → List Bytes → Compared → ℕ → Outcome (Bool × Compared)
unfolding compare_once
reverse_compare zero buffer frags r label = err out_of_fuel
reverse_compare (suc fuel) buffer frags r label =
    compare_once (reverse_compare fuel buffer frags r) buffer frags r label

-- The best match so far, as the fragment where it begins and its offset: `pos` and `labelStart`
-- if `have_match`.
abbrev pub Match : Type 0
Match = Option (ℕ × ℕ)

abbrev is_better : ℕ → Match → Bool
is_better i none = true
is_better i (some (p, label)) = ltb i p

improve : List Bytes → Match → Compared → ℤ → Match
improve frags best r (negsuc n) = best
improve frags best r (pos i) =
    if ltb i (length frags) && is_better i best then some (i, r.best_matched_offset) else best

-- A match of the whole name ends the search.
abbrev is_full : Match → Bool
is_full none = false
is_full (some (p, label)) = p == 0

unfoldable pub search_labels : Bytes → List Bytes → List ℕ → Match → Outcome Match
unfolding reverse_compare improve
search_labels buffer frags [] best = ok best
search_labels buffer frags (label ∷ labels) best =
    elim (reverse_compare (length buffer) buffer frags
      (record { curr_frag = negsuc 0; best_matched_offset = 0 }) label) [
        | err e ↦ err e
        | ok back ↦
            let better = improve frags best back.1 back.1.curr_frag in
            elim (is_full better) [
              | true ↦ ok better
              | false ↦ search_labels buffer frags labels better
            ]
      ]

unfoldable pub search_for_domain_name : Bytes → List Bytes → List ℕ → Outcome Match
unfolding search_labels
search_for_domain_name buffer frags label_start_points =
    search_labels buffer frags label_start_points none

-- One octet with the length, and the text.
unfoldable pub label_bytes : List Bytes → Bytes
label_bytes [] = []
label_bytes (frag ∷ frags) = length frag % 256 ∷ (frag ++ label_bytes frags)

-- What the two-argument `WriteDomainName` appends.
name_bytes : List Bytes → Match → Bytes
unfolding label_bytes
name_bytes frags none = label_bytes frags ++ 0 ∷ []
name_bytes frags (some (index, label)) =
    label_bytes (take index frags) ++ word_bytes (bit_or label 0xC000)

unfoldable pub append_name : Bytes → List ℕ → List Bytes → Outcome Bytes
unfolding search_for_domain_name name_bytes
append_name buffer points frags =
    search_for_domain_name buffer frags points >>= λ m. ok (buffer ++ name_bytes frags m)

abbrev is_member : ℕ → List ℕ → Bool
is_member a [] = false
is_member a (x ∷ xs) = a == x || is_member a xs

-- `AddLabelForCompression`, its first parameter a 16-bit number.
unfoldable pub add_label_for_compression : ℕ → Bytes → List ℕ → Outcome (List ℕ)
add_label_for_compression offset buffer points =
    let my_offset = bit_or offset 0xC000 in
    let ofs = label_offset my_offset in
    elim (get_elem? buffer ofs) [
      | none ↦ err out_of_bounds
      | some b ↦
          let dst_offset = if b / 64 == 3 then word_at buffer ofs else my_offset in
          ok (if is_member dst_offset points then points else points ++ my_offset ∷ [])
    ]

-- The labels of a zone and of its parents, outward, each behind a dot.
unfoldable pub dotted : List Bytes → Bytes
dotted [] = []
dotted (label ∷ labels) = b'.' ∷ (label ++ dotted labels)

unfoldable pub ends_with_dot : Bytes → Bool
ends_with_dot [] = false
ends_with_dot (c ∷ []) = c == b'.'
ends_with_dot (c ∷ d ∷ cs) = ends_with_dot (d ∷ cs)

abbrev is_empty : Bytes → Bool
is_empty [] = true
is_empty (c ∷ cs) = false

-- The name that is written for `domain_name` in a zone, given by its labels; none if there is
-- no zone.
unfoldable pub qualified : Bytes → List Bytes → Bytes
unfolding dotted ends_with_dot
qualified domain_name zone =
    if not (is_empty domain_name) && not (ends_with_dot domain_name)
    then domain_name ++ dotted zone
    else domain_name

-- The reply with its `label_start_points`.
pub record Writer : Type 0 where
  pub buffer : Bytes
  pub points : List ℕ

-- The three-argument `WriteDomainName`.
unfoldable pub write_domain_name : Writer → Bytes → List Bytes → Outcome Writer
unfolding append_name to_fragments qualified add_label_for_compression
write_domain_name w domain_name zone =
    append_name w.buffer w.points (to_fragments (qualified domain_name zone)) >>= λ buffer.
    add_label_for_compression (length w.buffer % 2 ^ 16) buffer w.points >>= λ points.
    ok (record { buffer = buffer; points = points })

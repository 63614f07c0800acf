-- ===== src/Dns/Records/Layout.antt =====
-- What `Write` and `Revert` of the records (src/dnsd/Message.h) do to the reply.
use v_ubercool.Base.{
  ℕ, suc, ◌+◌, ◌%◌, ◌^◌, ◌-◌, ◌<◌, ◌≡◌, refl, sym, ap, ◌∙◌, subst, inl, inr, ◌⊎◌, true,
  if◌then◌else◌, Option, none, some, List, [], ◌∷◌, ◌++◌, Bytes, length, length-append, length-set,
  take, arith, ◌==◌, Bool-cases, take-append_length, if_intro,
}
use mathlib.Core.List.{append_assoc, append-nil}
use v_ubercool.Dns.Outcome.{ok, >>=-eq-ok}
use v_ubercool.Dns.Header.{word_bytes}
use v_ubercool.Dns.Names.{Writer, write_domain_name, add_label_for_compression}
use v_ubercool.Dns.Names.Writers.{write_domain_name-Extends}
use v_ubercool.Dns.Records.{
  Soa, Rdata, a, cname, mx, ns, soa, rtype, initial_rdlength, Answer, long_bytes, fixed_bytes,
  in_class, ttl, is_empty, write_owner, write_pointer, write_record_header, append_bytes, write_soa,
  write_rdata, write_rdlength, patches_length, Written, finish_record, write_record, revert,
}

-- An address has four octets.
abbrev pub IsAddressed : Rdata → Type 0
IsAddressed (a ip) = length ip ≡ 4
IsAddressed _ = Unit

buffer_of_ok : {w w' : Writer} → ok w ≡ ok w' → w'.buffer ≡ w.buffer
buffer_of_ok h = ground arith

written_of_ok : {r r' : Written} → ok r ≡ ok r' → r ≡ r'
written_of_ok h = ground arith

-- `write_domain_name` appends the octets, for a name in a zone.
abbrev pub Appends : Bytes → Bytes → List Bytes → Bytes → Type 0
Appends before name zone part =
    (w : Writer) × (w' : Writer) × (w.buffer ≡ before)
    × (write_domain_name w name zone ≡ ok w')
    × (w'.buffer ≡ before ++ part)

-- The owner: its name, if it is given as text, and its pointer, if it is given.
abbrev pub IsText : Bytes → Bytes → Bytes → Type 0
IsText before name text = ((name ≡ []) × (text ≡ [])) ⊎ Appends before name [] text

abbrev pub pointer_bytes : ℕ → Bytes
pointer_bytes name_ptr = if name_ptr == 0 then [] else word_bytes name_ptr

abbrev pub IsOwner : Bytes → Answer → Bytes → Type 0
IsOwner before ans owner =
    (text : Bytes) × (owner ≡ text ++ pointer_bytes ans.name_ptr) × IsText before ans.name text

-- The data of each type, behind what the reply holds.
abbrev pub IsData : Bytes → Rdata → Bytes → Type 0
IsData before (a ip) bytes = bytes ≡ ip
IsData before (cname name) bytes = Appends before name [] bytes
IsData before (ns fqdn) bytes = Appends before fqdn [] bytes
IsData before (mx priority fqdn) bytes =
    (name : Bytes) × (bytes ≡ word_bytes priority ++ name)
    × Appends (before ++ word_bytes priority) fqdn [] name
IsData before (soa s) bytes =
    (mname : Bytes) × (first : Bytes) × (second : Bytes) × (s.mname ≡ some mname)
    × Appends before mname s.zone first
    × Appends (before ++ first) s.rname s.zone second
    × (bytes
        ≡ first
          ++ (second
              ++ (long_bytes s.serial
                  ++ (long_bytes s.refresh
                      ++ (long_bytes s.retry ++ (long_bytes s.expire ++ long_bytes s.minimum))))))

write_domain_name-Appends :
    (w : Writer) (name : Bytes) (zone : List Bytes) {w' : Writer}
    → write_domain_name w name zone ≡ ok w'
    → (part : Bytes) × (w'.buffer ≡ w.buffer ++ part) × Appends w.buffer name zone part
write_domain_name-Appends w name zone {w'} h =
    let (part, e) = write_domain_name-Extends w name zone h in (part, e, (w, w', refl, h, e))

is_empty-nil : (name : Bytes) → is_empty name ≡ true → name ≡ []
is_empty-nil [] e = refl
is_empty-nil (c ∷ cs) e = cc

write_owner-IsText :
    (w : Writer) (ans : Answer) {w' : Writer}
    → write_owner w ans ≡ ok w'
    → (text : Bytes) × (w'.buffer ≡ w.buffer ++ text) × IsText w.buffer ans.name text
unfolding write_owner
write_owner-IsText w ans {w'} h = elim (Bool-cases (is_empty ans.name)) [
  | inl e ↦ (
    [],
    buffer_of_ok (rw e at h) ∙ sym (append-nil w.buffer),
    inl (is_empty-nil ans.name e, refl),
  )
  | inr e ↦
      let (part, same, appends) = write_domain_name-Appends w ans.name [] (rw e at h) in
      (part, same, inr appends)
]

write_pointer-bytes :
    (w : Writer) (ans : Answer) {w' : Writer}
    → write_pointer w ans ≡ ok w'
    → w'.buffer ≡ w.buffer ++ pointer_bytes ans.name_ptr
unfolding write_pointer
write_pointer-bytes w ans {w'} h = elim (Bool-cases (ans.name_ptr == 0)) [
  | inl e ↦ rw e (buffer_of_ok (rw e at h) ∙ sym (append-nil w.buffer))
  | inr e ↦
      let (p, _, same) =
        >>=-eq-ok (add_label_for_compression ans.name_ptr _ w.points) _ (rw e at h) in
      rw e (buffer_of_ok same)
]

write_soa-IsData :
    (w : Writer) (s : Soa) (name : Option Bytes) {w' : Writer}
    → s.mname ≡ name
    → write_soa w s name ≡ ok w'
    → (bytes : Bytes) × (w'.buffer ≡ w.buffer ++ bytes) × IsData w.buffer (soa s) bytes
unfolding write_soa
write_soa-IsData w s none n h = cc
write_soa-IsData w s (some mname) n h =
    let (w1, e, f) = >>=-eq-ok (write_domain_name w mname s.zone) _ h in
    let (w2, g, k) = >>=-eq-ok (write_domain_name w1 s.rname s.zone) _ f in
    let (first, same1, appends1) = write_domain_name-Appends w mname s.zone e in
    let (second, same2, appends2) = write_domain_name-Appends w1 s.rname s.zone g in
    let numbers : Bytes =
      long_bytes s.serial
      ++ (long_bytes s.refresh
          ++ (long_bytes s.retry ++ (long_bytes s.expire ++ long_bytes s.minimum))) in
    (
      first ++ (second ++ numbers),
      buffer_of_ok k
          ∙ ap (λ b. b ++ numbers) (same2 ∙ ap (λ b. b ++ second) same1)
          ∙ append_assoc (w.buffer ++ first) second numbers
          ∙ append_assoc w.buffer first (second ++ numbers),
      (
        mname,
        first,
        second,
        n,
        appends1,
        subst (λ b. Appends b s.rname s.zone second) same1 appends2,
        refl,
      ),
    )

write_rdata-IsData :
    (w : Writer) (r : Rdata) {w' : Writer}
    → write_rdata w r ≡ ok w'
    → (bytes : Bytes) × (w'.buffer ≡ w.buffer ++ bytes) × IsData w.buffer r bytes
unfolding write_rdata
write_rdata-IsData w (a ip) h = (ip, ground arith, refl)
write_rdata-IsData w (cname name) h = write_domain_name-Appends w name [] h
write_rdata-IsData w (mx priority fqdn) h =
    let (name, e, appends) =
      write_domain_name-Appends (append_bytes w (word_bytes priority)) fqdn [] h in
    (
      word_bytes priority ++ name,
      e ∙ append_assoc w.buffer (word_bytes priority) name,
      (name, refl, appends),
    )
write_rdata-IsData w (ns fqdn) h = write_domain_name-Appends w fqdn [] h
write_rdata-IsData w (soa s) h = write_soa-IsData w s s.mname refl h

write_record_header-layout :
    (w : Writer) (ans : Answer) {header : Writer}
    → write_record_header w ans ≡ ok header
    → (owner : Bytes) × (header.buffer
        ≡ w.buffer ++ (owner ++ fixed_bytes (rtype ans.rdata) (initial_rdlength ans.rdata)))
      × IsOwner w.buffer ans owner
unfolding write_record_header
write_record_header-layout w ans h =
    let fixed = fixed_bytes (rtype ans.rdata) (initial_rdlength ans.rdata) in
    let pointer = pointer_bytes ans.name_ptr in
    let (w1, e, f) = >>=-eq-ok (write_owner w ans) _ h in
    let (w2, g, k) = >>=-eq-ok (write_pointer w1 ans) _ f in
    let (text, same, is_text) = write_owner-IsText w ans e in
    (
      text ++ pointer,
      buffer_of_ok k
          ∙ ap (λ b. b ++ fixed)
              (write_pointer-bytes w1 ans g
                ∙ ap (λ b. b ++ pointer) same
                ∙ append_assoc w.buffer text pointer)
          ∙ append_assoc w.buffer (text ++ pointer) fixed,
      (text, refl, is_text),
    )

-- Two octets are overwritten in place.
write_rdlength-append :
    (n : ℕ) (before : Bytes) (x y : ℕ) (after : Bytes)
    → write_rdlength (length before) n (before ++ x ∷ y ∷ after) ≡ before ++ (word_bytes n ++ after)
unfolding write_rdlength
write_rdlength-append n [] x y after = refl
write_rdlength-append n (b ∷ before) x y after =
    let e : suc (length before) + 1 ≡ suc (length before + 1) = omega arith in
    rw e (ap (◌∷◌ b) (write_rdlength-append n before x y after))

length-write_rdlength :
    (position n : ℕ) (buffer : Bytes) → length (write_rdlength position n buffer) ≡ length buffer
unfolding write_rdlength
length-write_rdlength position n buffer =
    length-set _ (position + 1) _ ∙ length-set buffer position _

-- The fixed octets but for the length.
abbrev fixed_head : ℕ → Bytes
fixed_head type = word_bytes type ++ (word_bytes in_class ++ long_bytes ttl)

-- The length of the data is written over the zero that stood there.
patched :
    (start owner bytes header after : Bytes) (type : ℕ)
    → header ≡ start ++ (owner ++ fixed_bytes type 0)
    → after ≡ header ++ bytes
    → length after < 2 ^ 16
    → write_rdlength (length header - 2) ((length after - length header) % 2 ^ 16) after
      ≡ start ++ (owner ++ (fixed_bytes type (length bytes) ++ bytes))
unfolding fixed_bytes
patched start owner bytes header after type e f small =
    let before = start ++ (owner ++ fixed_head type) in
    let h : header ≡ before ++ 0 ∷ 0 ∷ [] = e ∙ simp append_assoc in
    let g : after ≡ before ++ 0 ∷ 0 ∷ bytes =
      f ∙ ap (λ b. b ++ bytes) h ∙ append_assoc before _ bytes in
    let place : length header - 2 ≡ length before =
      omega (arith, ap length h, length-append before (0 ∷ 0 ∷ [])) in
    let count : (length after - length header) % 2 ^ 16 ≡ length bytes =
      omega (arith, ap length f, length-append header bytes) in
    rw (place, count, g) (write_rdlength-append (length bytes) before 0 0 bytes ∙ simp append_assoc)

patched_size :
    (start more bytes header after : Bytes)
    → header ≡ start ++ more
    → after ≡ header ++ bytes
    → length after < 2 ^ 16
    → length start + (length header - length start + (length after - length header) % 2 ^ 16)
      ≡ length (write_rdlength (length header - 2) ((length after - length header) % 2 ^ 16) after)
patched_size start more bytes header after e f small = omega (
  arith,
  length-write_rdlength (length header - 2) ((length after - length header) % 2 ^ 16) after,
  ap length e,
  ap length f,
  length-append start more,
  length-append header bytes,
)

-- A finished record: see `write_record_layout`.
abbrev HasLayout : Bytes → Bytes → Rdata → Written → Type 0
HasLayout start owner rdata r =
    (bytes : Bytes) × (r.writer.buffer
      ≡ start ++ (owner ++ (fixed_bytes (rtype rdata) (length bytes) ++ bytes)))
    × (length start + r.size ≡ length r.writer.buffer)
    × IsData (start ++ (owner ++ fixed_bytes (rtype rdata) (initial_rdlength rdata))) rdata bytes

length-finish_record :
    (n : ℕ) (header w : Writer) (rdata : Rdata)
    → length (finish_record n header rdata w).writer.buffer ≡ length w.buffer
unfolding finish_record
length-finish_record n header w rdata =
    if_intro {A = Bytes} (λ b. length b ≡ length w.buffer) (patches_length rdata) _ _
      (λ _. length-write_rdlength _ _ w.buffer) (λ _. refl)

finish_record-HasLayout :
    (start owner : Bytes) (header w : Writer) (rdata : Rdata)
    → IsAddressed rdata
    → header.buffer ≡ start ++ (owner ++ fixed_bytes (rtype rdata) (initial_rdlength rdata))
    → write_rdata header rdata ≡ ok w
    → length w.buffer < 2 ^ 16
    → HasLayout start owner rdata (finish_record (length start) header rdata w)
unfolding finish_record write_rdata rtype initial_rdlength
finish_record-HasLayout start owner header w (a ip) i e h small =
    let f : w.buffer ≡ header.buffer ++ ip = buffer_of_ok h in
    let four : fixed_bytes 1 (length ip) ≡ fixed_bytes 1 4 = ap (fixed_bytes 1) i in
    (
      ip,
      rw four (
          f
          ∙ ap (λ b. b ++ ip) e
          ∙ append_assoc start _ ip
          ∙ ap (λ b. start ++ b) (append_assoc owner (fixed_bytes 1 4) ip)),
      omega (
        arith,
        ap length f,
        ap length e,
        length-append header.buffer ip,
        length-append start (owner ++ fixed_bytes 1 4),
      ),
      refl,
    )
finish_record-HasLayout start owner header w (cname n) i e h small =
    let (bytes, f, is_data) = write_rdata-IsData header (cname n) h in
    (
      bytes,
      patched start owner bytes header.buffer w.buffer 5 e f small,
      patched_size start _ bytes header.buffer w.buffer e f small,
      subst (λ b. IsData b (cname n) bytes) e is_data,
    )
finish_record-HasLayout start owner header w r i e h small =
    let (bytes, f, is_data) = write_rdata-IsData header r h in
    (
      bytes,
      patched start owner bytes header.buffer w.buffer _ e f small,
      patched_size start _ bytes header.buffer w.buffer e f small,
      subst (λ b. IsData b r bytes) e is_data,
    )

-- A record that is written stands behind what the reply held before: its owner, type, class and time
-- to live, a length that is that of the data behind it, and the data. The owner is the answer's name,
-- as `write_domain_name` appends it, if it is not empty, and the answer's pointer, if it is not zero.
-- The data are the address; the name of a CNAME or NS record; the priority and the name of an MX
-- record; the zone's first name server, the name of the person in charge and the five numbers of an
-- SOA record, in their order; all names as `write_domain_name` appends them there, before the length
-- is filled in. `GetSize` is the number of octets added. Addresses must have four octets, and the
-- reply stay below 65536.
pub write_record_layout :
    (w : Writer) (ans : Answer) {r : Written}
    → IsAddressed ans.rdata
    → write_record w ans ≡ ok r
    → length r.writer.buffer < 2 ^ 16
    → (owner : Bytes) × IsOwner w.buffer ans owner
      × (bytes : Bytes) × (r.writer.buffer
          ≡ w.buffer ++ (owner ++ (fixed_bytes (rtype ans.rdata) (length bytes) ++ bytes)))
      × (length w.buffer + r.size ≡ length r.writer.buffer)
      × IsData
          (w.buffer ++ (owner ++ fixed_bytes (rtype ans.rdata) (initial_rdlength ans.rdata)))
          ans.rdata
          bytes
unfolding write_record
write_record_layout w ans {r} i h small =
    let (header, e, f) = >>=-eq-ok (write_record_header w ans) _ h in
    let (w', g, k) = >>=-eq-ok (write_rdata header ans.rdata) _ f in
    let (owner, l, is_owner) = write_record_header-layout w ans e in
    let same : finish_record (length w.buffer) header ans.rdata w' ≡ r = written_of_ok k in
    let size = length-finish_record (length w.buffer) header w' ans.rdata in
    let (bytes, layout, total, is_data) = subst (HasLayout w.buffer owner ans.rdata) same (
      finish_record-HasLayout w.buffer owner header w' ans.rdata i l g
        (omega (arith, size, ap (λ (x : Written). length x.writer.buffer) same))) in
    (owner, is_owner, bytes, layout, total, is_data)

-- `Revert` takes a record of any type back: the reply has the octets that it had before. Addresses must
-- have four octets, and the reply with the record stay below 65536.
pub revert-write_record :
    (w : Writer) (ans : Answer) {r : Written}
    → IsAddressed ans.rdata
    → write_record w ans ≡ ok r
    → length r.writer.buffer < 2 ^ 16
    → revert (length w.buffer) r.writer.buffer ≡ w.buffer
unfolding revert
revert-write_record w ans i h small =
    let (owner, _, bytes, e, _, _) = write_record_layout w ans i h small in
    ap (take (length w.buffer)) e ∙ take-append_length w.buffer _

-- ===== src/Dns/Reply/Fields.antt =====
-- What a client reads in the header of a reply (`CreateErrorReply` and `ProcessQuestions` of
-- src/dnsd/DnsDaemon.cpp).
use v_ubercool.Base.{
  ℕ, ◌+◌, ◌*◌, ◌/◌, ◌%◌, ◌<◌, ◌≡◌, refl, sym, ap, ◌∙◌, Bool, true, false, Bytes, length,
  length-resize, resize, arith, ◌==◌, if◌then◌else◌,
}
use v_ubercool.Dns.Outcome.{ok}
use v_ubercool.Dns.Header.{
  MessageHeader, header_size, Rcode, rcode_value, read_header, get_qr, get_opcode, get_aa, get_tc,
  get_rd, get_ra, get_rcode, set_qr, set_tc, set_ra, set_rcode, set_counts, reset_all_counters,
}
use v_ubercool.Dns.Header.Flags.{
  getters, set_qr_flags, set_tc_flags, set_ra_flags, set_aa_flags, set_rcode_flags, rcode_value-lt,
}
use v_ubercool.Dns.Header.RoundTrip.{IsWord, read_header-write_header, length-write_header}
use v_ubercool.Dns.Reply.{error_header, create_error_reply, Counts, answer_header}

abbrev bit : Bool → ℕ
bit b = if b then 1 else 0

bit-lt : (b : Bool) → bit b < 2
bit-lt true = omega arith
bit-lt false = omega arith

bit_test : (b : Bool) → (bit b == 1) ≡ b
bit_test true = refl
bit_test false = refl

-- `k` as a flag.
abbrev is_set : ℕ → Bool
is_set k = k == 1

answer_header_flags :
    (t a : Bool) (n : Counts) (h : MessageHeader)
    → h.flags < 65536
    → (answer_header t a n h).flags
      ≡ 32768
        + h.flags / 2048 % 16 * 2048
        + bit a * 1024
        + bit t * 512
        + h.flags / 256 % 2 * 256
        + h.flags % 128
unfolding answer_header set_counts
answer_header_flags t a n h lt =
    let h1 = set_tc t h in
    let h2 = set_qr true h1 in
    let h3 = set_ra false h2 in
    ground
      (arith, set_tc_flags t h lt, set_qr_flags true h1, set_ra_flags false h2, set_aa_flags a h3)

-- The parts of an answer's flag word, `f` being the query's.
word_fields :
    (t a f r : ℕ)
    → t < 2
    → a < 2
    → r ≡ 32768 + f / 2048 % 16 * 2048 + a * 1024 + t * 512 + f / 256 % 2 * 256 + f % 128
    → (r < 65536)
      × (r / 32768 ≡ 1)
      × (r / 2048 % 16 ≡ f / 2048 % 16)
      × (r / 1024 % 2 ≡ a)
      × (r / 512 % 2 ≡ t)
      × (r / 256 % 2 ≡ f / 256 % 2)
      × (r / 128 % 2 ≡ 0)
      × (r % 16 ≡ f % 16)
word_fields t a f r ht ha e = omega arith

pub answer_header_flags-lt :
    (t a : Bool) (n : Counts) (h : MessageHeader)
    → h.flags < 65536
    → (answer_header t a n h).flags < 65536
answer_header_flags-lt t a n h lt =
    (word_fields (bit t) (bit a) h.flags (answer_header t a n h).flags (bit-lt t) (bit-lt a)
      (answer_header_flags t a n h lt)).0

-- The flag word of an answer says that it is a reply, and holds the authority and truncation
-- flags given and no offer of recursion; opcode, recursion bit and response code are the query's.
pub answer_header_fields :
    (t a : Bool) (n : Counts) (h : MessageHeader)
    → h.flags < 65536
    → (get_qr (answer_header t a n h) ≡ true)
      × (get_opcode (answer_header t a n h) ≡ get_opcode h)
      × (get_aa (answer_header t a n h) ≡ a)
      × (get_tc (answer_header t a n h) ≡ t)
      × (get_rd (answer_header t a n h) ≡ get_rd h)
      × (get_ra (answer_header t a n h) ≡ false)
      × (get_rcode (answer_header t a n h) ≡ get_rcode h)
answer_header_fields t a n h lt =
    let r = answer_header t a n h in
    let b =
      word_fields (bit t) (bit a) h.flags r.flags (bit-lt t) (bit-lt a)
        (answer_header_flags t a n h lt) in
    let g = getters h lt in
    let k = getters r b.0 in
    (
      k.0 ∙ ap is_set b.1,
      k.1 ∙ b.2 ∙ sym g.1,
      k.2 ∙ ap is_set b.3 ∙ bit_test a,
      k.3 ∙ ap is_set b.4 ∙ bit_test t,
      k.4 ∙ ap is_set b.5 ∙ sym g.4,
      k.5 ∙ ap is_set b.6,
      k.7 ∙ b.7 ∙ sym g.7,
    )

error_header_flags :
    (c : Rcode) (h : MessageHeader)
    → h.flags < 65536
    → (error_header c h).flags ≡ (h.flags % 32768 + 32768) / 16 * 16 + rcode_value c
unfolding error_header reset_all_counters
error_header_flags c h lt =
    ground (arith, set_qr_flags true h lt, set_rcode_flags c (set_qr true h))

error_header_id : (c : Rcode) (h : MessageHeader) → (error_header c h).id ≡ h.id
unfolding error_header reset_all_counters set_rcode set_qr
error_header_id c h = refl

error_word_fields :
    (c f r : ℕ)
    → c < 16
    → r ≡ (f % 32768 + 32768) / 16 * 16 + c
    → (r < 65536)
      × (r / 32768 ≡ 1)
      × (r / 2048 % 16 ≡ f / 2048 % 16)
      × (r / 256 % 2 ≡ f / 256 % 2)
      × (r % 16 ≡ c)
error_word_fields c f r h e = omega arith

error_header-IsWord :
    (c : Rcode) (h : MessageHeader)
    → h.id < 65536
    → (error_header c h).flags < 65536
    → IsWord (error_header c h)
unfolding error_header reset_all_counters
error_header-IsWord c h id lt = record {
  id = omega (arith, error_header_id c h);
  flags = lt;
  qdcount = omega arith;
  ancount = omega arith;
  nscount = omega arith;
  arcount = omega arith;
}

-- An error reply is a bare header that a client reads back, whatever the buffer held: the query's
-- id, opcode and recursion bit, marked as a reply, with the response code given and no record.
pub create_error_reply_fields :
    (c : Rcode) (h : MessageHeader) (buffer : Bytes)
    → h.id < 65536
    → h.flags < 65536
    → let r = error_header c h in
      (read_header (create_error_reply c h buffer) header_size ≡ ok r)
      × (length (create_error_reply c h buffer) ≡ header_size)
      × (r.id ≡ h.id)
      × (get_qr r ≡ true)
      × (get_rcode r ≡ rcode_value c)
      × (get_opcode r ≡ get_opcode h)
      × (get_rd r ≡ get_rd h)
      × (r.qdcount + r.ancount + r.nscount + r.arcount ≡ 0)
unfolding create_error_reply error_header reset_all_counters
create_error_reply_fields c h buffer id lt =
    let r = error_header c h in
    let b =
      error_word_fields (rcode_value c) h.flags r.flags (rcode_value-lt c)
        (error_header_flags c h lt) in
    let g = getters h lt in
    let k = getters r b.0 in
    (
      read_header-write_header r (resize header_size 0 buffer) header_size
          (error_header-IsWord c h id b.0) (omega arith),
      length-write_header r _ (omega (arith, length-resize header_size 0 buffer))
          ∙ length-resize header_size 0 buffer,
      error_header_id c h,
      k.0 ∙ ap is_set b.1,
      k.7 ∙ b.4,
      k.1 ∙ b.2 ∙ sym g.1,
      k.4 ∙ ap is_set b.3 ∙ sym g.4,
      refl,
    )

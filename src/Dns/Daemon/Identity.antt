-- ===== src/Dns/Daemon/Identity.antt =====
-- That a reply of `ProcesssQuerey`, src/dnsd/DnsDaemon.cpp, can be told to belong to its query.
use v_ubercool.Base.{
  ℕ, zero, suc, ◌+◌, ◌≤◌, ◌<◌, ◌≡◌, refl, subst, resize, ◌∙◌, inl, inr, Bool, true, false, some, [],
  ◌∷◌, Bytes, length, length-append, drop, get_elem?, All, arith, ◌==◌, if_intro, Option-cases,
}
use v_ubercool.Dns.Outcome.{
  Error, message_header_exception, label_header_exception, no_labels, illegal_label,
  illegal_pointer, question_header_exception, invalid_query, refused, unknown_domain,
  unknown_sub_domain, no_soa_record, truncated, std_out_of_range, out_of_bounds, out_of_fuel,
  endless_loop, ok, Outcome-cases,
}
use v_ubercool.Dns.Header.{
  MessageHeader, Rcode, header_size, header_bytes, word_at, read_header, write_header, set_aa,
  set_counts, set_qr, set_ra, set_tc, get_qr, get_opcode, get_rd, not_implemented,
}
use v_ubercool.Dns.Reply.{create_error_reply, answer_header, error_header}
use v_ubercool.Dns.Reply.Fields.{
  answer_header_fields, answer_header_flags-lt, create_error_reply_fields,
}
use v_ubercool.Dns.Labels.{ByteOrder}
use v_ubercool.Dns.Question.{copy_questions}
use v_ubercool.Dns.Zones.{ZoneMgr}
use v_ubercool.Dns.Sections.{Session, Progress, went, cut, failed}
use v_ubercool.Stats.{State}
use v_ubercool.Dns.Daemon.{
  Handled, replied, thrown, close_reply, finish_reply, answer_exception, answer_outcome,
  process_questions, process_message, process_query,
}

-- A list of octets.
abbrev pub IsOctets : Bytes → Type 0
IsOctets b = All (λ x. x < 256) b

get_elem?-lt : (b : Bytes) (i : ℕ) {x : ℕ} → IsOctets b → get_elem? b i ≡ some x → x < 256
get_elem?-lt [] i a e = cc
get_elem?-lt (y ∷ b) zero a e = ground arith
get_elem?-lt (y ∷ b) (suc i) a e = get_elem?-lt b i a.1 e

word_at-lt : (b : Bytes) (i : ℕ) → IsOctets b → word_at b i < 65536
unfolding word_at
word_at-lt b i a = elim (Option-cases (get_elem? b i)) [
  | inl e ↦ elim (Option-cases (get_elem? b (i + 1))) [
    | inl f ↦ rw (e, f) (omega arith)
    | inr (y, f) ↦ rw (e, f) (omega (arith, get_elem?-lt b (i + 1) a f))
  ]
  | inr (x, e) ↦ elim (Option-cases (get_elem? b (i + 1))) [
    | inl f ↦ rw (e, f) (omega (arith, get_elem?-lt b i a e))
    | inr (y, f) ↦ rw (e, f) (omega (arith, get_elem?-lt b i a e, get_elem?-lt b (i + 1) a f))
  ]
]

-- The words that a query's header is read from.
read_header-lt :
    (query : Bytes) (size : ℕ) {h : MessageHeader}
    → IsOctets query
    → read_header query size ≡ ok h
    → (h.id < 65536) × (h.flags < 65536)
unfolding read_header
read_header-lt query size {h} a e =
    let i = word_at-lt query 0 a in let f = word_at-lt query 2 a in (ground arith, ground arith)

-- A client reads in the reply's header the id, opcode and recursion bit of the query's, and that it
-- is a reply.
abbrev pub Answers : MessageHeader → Bytes → Type 0
Answers h reply =
    (r : MessageHeader) × (read_header reply (length reply) ≡ ok r)
    × (r.id ≡ h.id)
    × (get_qr r ≡ true)
    × (get_opcode r ≡ get_opcode h)
    × (get_rd r ≡ get_rd h)

read_back :
    (h : MessageHeader) (b : Bytes) (size : ℕ)
    → h.id < 65536
    → h.flags < 65536
    → header_size ≤ size
    → (r : MessageHeader) × (read_header (write_header h b) size ≡ ok r)
      × (r.id ≡ h.id)
      × (r.flags ≡ h.flags)
unfolding read_header write_header word_at
read_back h b size id flags le =
    let w = write_header h b in
    let r : MessageHeader = record h {
      qdcount = word_at w 4;
      ancount = word_at w 6;
      nscount = word_at w 8;
      arcount = word_at w 10;
    } in
    (r, ground arith, refl, refl)

-- Headers with one flag word.
same_flags :
    (r h : MessageHeader)
    → r.flags ≡ h.flags
    → (get_qr r ≡ get_qr h) × (get_opcode r ≡ get_opcode h) × (get_rd r ≡ get_rd h)
unfolding get_qr get_opcode get_rd
same_flags r h e = (rw e refl, rw e refl, rw e refl)

header_size-length : (h : MessageHeader) (b : Bytes) → header_size ≤ length (write_header h b)
unfolding write_header
header_size-length h b = omega (arith, length-append (header_bytes h) (drop header_size b))

close_reply-Answers :
    (t : Bool) (h : MessageHeader) (s : Session)
    → h.id < 65536
    → h.flags < 65536
    → Answers h (close_reply t h s)
unfolding close_reply answer_header set_counts set_aa set_ra set_qr set_tc
close_reply-Answers t h s id lt =
    let k = answer_header t s.authorative s.counts h in
    let f = answer_header_fields t s.authorative s.counts h lt in
    let (r, e, i, g) =
      read_back k s.writer.buffer _ id (answer_header_flags-lt t s.authorative s.counts h lt)
        (header_size-length k _) in
    let q = same_flags r k g in (r, e, i, q.0 ∙ f.0, q.1 ∙ f.1, q.2 ∙ f.4)

create_error_reply-Answers :
    (c : Rcode) (h : MessageHeader)
    → h.id < 65536
    → h.flags < 65536
    → Answers h (create_error_reply c h [])
create_error_reply-Answers c h id lt =
    let f = create_error_reply_fields c h [] id lt in
    (error_header c h, rw f.1 f.0, f.2, f.3, f.5, f.6)

-- The reply, if there is one, answers the query.
abbrev RepliesTo : MessageHeader → Handled → Type 0
RepliesTo h (replied reply state n) = Answers h reply
RepliesTo h (thrown e n) = Unit

module _ (h : MessageHeader) (id : h.id < 65536) (lt : h.flags < 65536) where
  answer_exception-RepliesTo : (e : Error) → RepliesTo h (answer_exception h e)
  unfolding answer_exception
  answer_exception-RepliesTo message_header_exception = create_error_reply-Answers _ h id lt
  answer_exception-RepliesTo label_header_exception = create_error_reply-Answers _ h id lt
  answer_exception-RepliesTo no_labels = create_error_reply-Answers _ h id lt
  answer_exception-RepliesTo illegal_label = create_error_reply-Answers _ h id lt
  answer_exception-RepliesTo illegal_pointer = create_error_reply-Answers _ h id lt
  answer_exception-RepliesTo question_header_exception = create_error_reply-Answers _ h id lt
  answer_exception-RepliesTo invalid_query = create_error_reply-Answers _ h id lt
  answer_exception-RepliesTo refused = create_error_reply-Answers _ h id lt
  answer_exception-RepliesTo unknown_domain = tt
  answer_exception-RepliesTo unknown_sub_domain = create_error_reply-Answers _ h id lt
  answer_exception-RepliesTo no_soa_record = create_error_reply-Answers _ h id lt
  answer_exception-RepliesTo truncated = create_error_reply-Answers _ h id lt
  answer_exception-RepliesTo std_out_of_range = create_error_reply-Answers _ h id lt
  answer_exception-RepliesTo out_of_bounds = tt
  answer_exception-RepliesTo out_of_fuel = tt
  answer_exception-RepliesTo endless_loop = tt

  finish_reply-RepliesTo : (p : Progress) → RepliesTo h (answer_outcome h (finish_reply h p))
  unfolding finish_reply answer_outcome
  finish_reply-RepliesTo (went s) = close_reply-Answers false h s id lt
  finish_reply-RepliesTo (cut s) = close_reply-Answers true h s id lt
  finish_reply-RepliesTo (failed e) = answer_exception-RepliesTo e

module _ (matches : Bytes → Bool) (order : ByteOrder) (iequals : Bytes → Bytes → Bool)
    (m : ZoneMgr) where
  process_questions-RepliesTo :
      (query : Bytes) (size : ℕ) (h : MessageHeader)
      → h.id < 65536
      → h.flags < 65536
      → RepliesTo h (answer_outcome h (process_questions matches order iequals m query size h))
  unfolding process_questions answer_outcome
  process_questions-RepliesTo query size h id lt =
      elim (Outcome-cases
        (copy_questions matches order query h.qdcount size (resize header_size 0 []))) [
          | inr (x, e) ↦ rw (e, process_questions) (answer_exception-RepliesTo h id lt x)
          | inl (c, e) ↦ rw (e, process_questions) (finish_reply-RepliesTo h id lt _)
        ]

  -- Whatever the zones, and however many octets of the query buffer have been received, a reply to a
  -- query whose header is `h` has a header that a client reads back, with the query's id, opcode and
  -- recursion bit, and marked as a reply. The buffer must hold octets.
  pub process_query-Answers :
      (query : Bytes) (size : ℕ) {reply : Bytes} {state : State} {n : ℕ}
      → IsOctets query
      → process_query matches order iequals m query size ≡ replied reply state n
      → (h : MessageHeader) × (read_header query size ≡ ok h) × Answers h reply
  unfolding process_query process_message
  process_query-Answers query size {reply} {state} {n} a e =
      elim (Outcome-cases (read_header query size)) [
        | inr (x, f) ↦
            let no : thrown x 0 ≡ replied reply state n = (rw (f, process_query) at e) in cc
        | inl (h, f) ↦
            let (id, lt) = read_header-lt query size a f in
            let all : RepliesTo h (process_message matches order iequals m query size h) =
              if_intro (RepliesTo h) (get_qr h) _ _
                (λ _. answer_exception-RepliesTo h id lt invalid_query)
                (λ _.
                  if_intro (RepliesTo h) (get_opcode h == 0) _ _
                    (λ _. process_questions-RepliesTo query size h id lt)
                    (λ _. create_error_reply-Answers not_implemented h id lt)) in
            (h, f, subst (RepliesTo h) (rw (f, process_query) at e) all)
      ]

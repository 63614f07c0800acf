-- ===== src/Dns/Daemon/Replies.antt =====
-- What `ProcesssQuerey` of src/dnsd/DnsDaemon.cpp replies.
use v_ubercool.Base.{
  ℕ, ◌≤◌, inl, inr, Bool, [], Bytes, length, length-drop, length-resize, resize, arith, ◌==◌,
  if_intro,
}
use v_ubercool.Dns.Outcome.{
  Error, message_header_exception, label_header_exception, no_labels, illegal_label,
  illegal_pointer, question_header_exception, invalid_query, refused, unknown_domain,
  unknown_sub_domain, no_soa_record, truncated, std_out_of_range, out_of_bounds, out_of_fuel,
  endless_loop, Outcome, ok, err, Outcome-cases,
}
use v_ubercool.Dns.Header.{
  MessageHeader, Rcode, header_size, read_header, write_header, get_qr, get_opcode,
}
use v_ubercool.Dns.Reply.{create_error_reply}
use v_ubercool.Dns.Labels.{ByteOrder}
use v_ubercool.Dns.Question.Sizes.{copy_questions-short}
use v_ubercool.Dns.Question.{max_reply_buffer, copy_questions}
use v_ubercool.Dns.Zones.{ZoneMgr}
use v_ubercool.Dns.Sections.{Progress, went, cut, failed}
use v_ubercool.Dns.Sections.Size.{StaysFit, process_sections-StaysFit}
use v_ubercool.Dns.Daemon.{
  Handled, replied, thrown, first_session, close_reply, finish_reply, answer_exception,
  answer_outcome, process_questions, process_message, process_query,
}

length-write_header_any :
    (h : MessageHeader) (b : Bytes) → length b ≤ 512 → length (write_header h b) ≤ 512
unfolding write_header
length-write_header_any h b le = omega (arith, length-drop 12 b)

-- A reply fits a datagram of 512 octets.
abbrev pub IsShort : Handled → Type 0
IsShort (replied reply state n) = length reply ≤ max_reply_buffer
IsShort (thrown e n) = Unit

OutcomeIsShort : Outcome Bytes → Type 0
OutcomeIsShort (ok b) = length b ≤ max_reply_buffer
OutcomeIsShort (err e) = Unit

create_error_reply-short :
    (c : Rcode) (h : MessageHeader) → length (create_error_reply c h []) ≤ max_reply_buffer
unfolding create_error_reply
create_error_reply-short c h =
    length-write_header_any _ _ (omega (arith, length-resize {A = ℕ} header_size 0 []))

answer_exception-IsShort : (h : MessageHeader) (e : Error) → IsShort (answer_exception h e)
unfolding answer_exception
answer_exception-IsShort h message_header_exception = create_error_reply-short _ h
answer_exception-IsShort h label_header_exception = create_error_reply-short _ h
answer_exception-IsShort h no_labels = create_error_reply-short _ h
answer_exception-IsShort h illegal_label = create_error_reply-short _ h
answer_exception-IsShort h illegal_pointer = create_error_reply-short _ h
answer_exception-IsShort h question_header_exception = create_error_reply-short _ h
answer_exception-IsShort h invalid_query = create_error_reply-short _ h
answer_exception-IsShort h refused = create_error_reply-short _ h
answer_exception-IsShort h unknown_domain = tt
answer_exception-IsShort h unknown_sub_domain = create_error_reply-short _ h
answer_exception-IsShort h no_soa_record = create_error_reply-short _ h
answer_exception-IsShort h truncated = create_error_reply-short _ h
answer_exception-IsShort h std_out_of_range = create_error_reply-short _ h
answer_exception-IsShort h out_of_bounds = tt
answer_exception-IsShort h out_of_fuel = tt
answer_exception-IsShort h endless_loop = tt

finish_reply-IsShort :
    (h : MessageHeader) (p : Progress) → StaysFit p → OutcomeIsShort (finish_reply h p)
unfolding finish_reply close_reply StaysFit OutcomeIsShort
finish_reply-IsShort h (went s) fits = length-write_header_any _ s.writer.buffer fits
finish_reply-IsShort h (cut s) fits = length-write_header_any _ s.writer.buffer fits
finish_reply-IsShort h (failed e) fits = tt

answer_outcome-IsShort :
    (h : MessageHeader) (o : Outcome Bytes) → OutcomeIsShort o → IsShort (answer_outcome h o)
unfolding answer_outcome OutcomeIsShort
answer_outcome-IsShort h (ok b) fits = fits
answer_outcome-IsShort h (err e) fits = answer_exception-IsShort h e

module _ (matches : Bytes → Bool) (order : ByteOrder) (iequals : Bytes → Bytes → Bool)
    (m : ZoneMgr) where
  process_questions-IsShort :
      (query : Bytes) (size : ℕ) (h : MessageHeader)
      → OutcomeIsShort (process_questions matches order iequals m query size h)
  unfolding process_questions copy_questions first_session OutcomeIsShort
  process_questions-IsShort query size h =
      elim (Outcome-cases
        (copy_questions matches order query h.qdcount size (resize header_size 0 []))) [
          | inr (x, e) ↦ rw (e, process_questions) tt
          | inl (c, e) ↦
              rw (e, process_questions)
                (finish_reply-IsShort h _ (
                  process_sections-StaysFit iequals m query c.questions (first_session c) (
                    copy_questions-short matches order query h.qdcount size _
                      (omega (arith, length-resize {A = ℕ} header_size 0 [])) e)))
        ]

  -- Whatever the query, what stands behind it in the buffer, and the zones, a reply has at most 512
  -- octets.
  pub process_query-IsShort :
      (query : Bytes) (size : ℕ) → IsShort (process_query matches order iequals m query size)
  unfolding process_query process_message
  process_query-IsShort query size = elim (Outcome-cases (read_header query size)) [
    | inr (x, e) ↦ rw (e, process_query) tt
    | inl (h, e) ↦
        rw (e, process_query)
          (if_intro IsShort (get_qr h) _ _ (λ _. answer_exception-IsShort h invalid_query)
            (λ _.
              if_intro IsShort (get_opcode h == 0) _ _
                (λ _. answer_outcome-IsShort h _ (process_questions-IsShort query size h))
                (λ _. create_error_reply-short _ h)))
  ]

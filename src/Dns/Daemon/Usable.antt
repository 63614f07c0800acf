-- ===== src/Dns/Daemon/Usable.antt =====
-- Every reply of `ProcesssQuerey` (src/dnsd/DnsDaemon.cpp) has octets, and its request is not yet counted
-- as a success.
use v_ubercool.Base.{ℕ, inl, inr, Bool, [], ◌∷◌, Bytes, resize, ◌==◌, if_intro}
use v_ubercool.Stats.{State, bad, unset}
use v_ubercool.Dns.Outcome.{
  Error, invalid_query, unknown_domain, unknown_sub_domain, refused, no_labels, illegal_label,
  illegal_pointer, message_header_exception, label_header_exception, question_header_exception,
  no_soa_record, truncated, std_out_of_range, out_of_bounds, out_of_fuel, endless_loop, Outcome, ok,
  err, Outcome-cases,
}
use v_ubercool.Dns.Header.{
  MessageHeader, not_implemented, header_size, write_header, read_header, get_qr, get_opcode,
}
use v_ubercool.Dns.Reply.{create_error_reply}
use v_ubercool.Dns.Labels.{ByteOrder}
use v_ubercool.Dns.Question.{copy_questions}
use v_ubercool.Dns.Zones.{ZoneMgr}
use v_ubercool.Dns.Sections.{Progress, went, cut, failed}
use v_ubercool.Dns.Daemon.{
  Handled, replied, thrown, close_reply, finish_reply, answer_exception, answer_outcome,
  process_questions, process_message, process_query,
}

abbrev pub IsFailing : State → Type 0
IsFailing unset = Unit
IsFailing bad = Unit
IsFailing _ = ⊥

abbrev pub IsUsable : Handled → Type 0
IsUsable (replied [] state n) = ⊥
IsUsable (replied (b ∷ bs) state n) = IsFailing state
IsUsable (thrown e n) = Unit

answer_exception-IsUsable : (h : MessageHeader) (e : Error) → IsUsable (answer_exception h e)
unfolding answer_exception create_error_reply write_header
answer_exception-IsUsable h message_header_exception = tt
answer_exception-IsUsable h label_header_exception = tt
answer_exception-IsUsable h no_labels = tt
answer_exception-IsUsable h illegal_label = tt
answer_exception-IsUsable h illegal_pointer = tt
answer_exception-IsUsable h question_header_exception = tt
answer_exception-IsUsable h invalid_query = tt
answer_exception-IsUsable h refused = tt
answer_exception-IsUsable h unknown_domain = tt
answer_exception-IsUsable h unknown_sub_domain = tt
answer_exception-IsUsable h no_soa_record = tt
answer_exception-IsUsable h truncated = tt
answer_exception-IsUsable h std_out_of_range = tt
answer_exception-IsUsable h out_of_bounds = tt
answer_exception-IsUsable h out_of_fuel = tt
answer_exception-IsUsable h endless_loop = tt

-- The reply of an answer has its header.
abbrev IsFull : Outcome Bytes → Type 0
IsFull (ok []) = ⊥
IsFull _ = Unit

finish_reply-IsFull : (h : MessageHeader) (p : Progress) → IsFull (finish_reply h p)
unfolding finish_reply close_reply write_header
finish_reply-IsFull h (went s) = tt
finish_reply-IsFull h (cut s) = tt
finish_reply-IsFull h (failed e) = tt

answer_outcome-IsUsable :
    (h : MessageHeader) (o : Outcome Bytes) → IsFull o → IsUsable (answer_outcome h o)
unfolding answer_outcome
answer_outcome-IsUsable h (ok []) full = full
answer_outcome-IsUsable h (ok (b ∷ bs)) full = tt
answer_outcome-IsUsable h (err e) full = answer_exception-IsUsable h e

not_implemented-IsUsable :
    (h : MessageHeader) → IsUsable (replied (create_error_reply not_implemented h []) unset 0)
unfolding create_error_reply write_header
not_implemented-IsUsable h = tt

module _ (matches : Bytes → Bool) (order : ByteOrder) (iequals : Bytes → Bytes → Bool)
    (m : ZoneMgr) where
  process_questions-IsFull :
      (query : Bytes) (size : ℕ) (h : MessageHeader)
      → IsFull (process_questions matches order iequals m query size h)
  unfolding process_questions
  process_questions-IsFull query size h =
      elim (Outcome-cases
        (copy_questions matches order query h.qdcount size (resize header_size 0 []))) [
          | inr (x, e) ↦ rw (e, process_questions) tt
          | inl (c, e) ↦ rw (e, process_questions) (finish_reply-IsFull h _)
        ]

  pub process_query-IsUsable :
      (query : Bytes) (size : ℕ) → IsUsable (process_query matches order iequals m query size)
  unfolding process_query process_message
  process_query-IsUsable query size = elim (Outcome-cases (read_header query size)) [
    | inr (x, e) ↦ rw (e, process_query) tt
    | inl (h, e) ↦
        rw (e, process_query)
          (if_intro IsUsable (get_qr h) _ _ (λ _. answer_exception-IsUsable h invalid_query)
            (λ _.
              if_intro IsUsable (get_opcode h == 0) _ _
                (λ _. answer_outcome-IsUsable h _ (process_questions-IsFull query size h))
                (λ _. not_implemented-IsUsable h)))
  ]

-- ===== src/Dns/Question/Sizes.antt =====
-- The octets that the question loop of `ProcessQuestions` (src/dnsd/DnsDaemon.cpp) writes.
use v_ubercool.Base.{
  ℕ, zero, suc, ◌-◌, ◌≤◌, ◌≡◌, inl, inr, Bool, List, Bytes, length, length-append, length-take,
  take, drop, arith, ◌==◌, Bool-cases,
}
use v_ubercool.Dns.Outcome.{invalid_query, ok, err, >>=-eq-ok, Outcome-cases}
use v_ubercool.Dns.Labels.{ByteOrder, Label}
use v_ubercool.Dns.Question.{
  Question, question_size, max_reply_buffer, Copied, read_question, accept_question, copy_question,
  copy_rounds, copy_questions,
}

module _ (matches : Bytes → Bool) (order : ByteOrder) (mem : Bytes) where
  accept_question-short :
      (p : ℕ) (s : Copied) (qk : Question × List Label) {s' : Copied}
      → accept_question matches order mem p s qk ≡ ok s'
      → length s'.reply ≤ max_reply_buffer
  unfolding accept_question
  accept_question-short p s (q, k) {s'} h =
      let e = length-append s.reply (take (question_size q) (drop p mem)) in
      let f = length-take (question_size q) (drop p mem) in ground arith

  copy_rounds-short :
      (n query_len bytes_left : ℕ) (s : Copied) {s' : Copied}
      → length s.reply ≤ max_reply_buffer
      → copy_rounds matches order mem n query_len bytes_left s ≡ ok s'
      → length s'.reply ≤ max_reply_buffer
  unfolding copy_rounds copy_question
  copy_rounds-short zero query_len left s le h = ground arith
  copy_rounds-short (suc n) query_len left s {s'} le h =
      elim (Outcome-cases (copy_question matches order mem query_len left s)) [
        | inr (x, e) ↦ let bad_ : err x ≡ ok s' = (rw (e, copy_rounds) at h) in cc
        | inl (t, e) ↦
            let short : length t.reply ≤ max_reply_buffer = elim (Bool-cases (left == 0)) [
              | inl z ↦ let bad_ : err invalid_query ≡ ok t = (rw z at e) in cc
              | inr z ↦
                  let (qk, _, f) =
                    >>=-eq-ok (read_question matches order mem (query_len - left) left s.known _) _
                      (rw z at e) in
                  accept_question-short _ s qk f
            ] in
            copy_rounds-short n query_len left t short (rw (e, copy_rounds) at h)
      ]

  -- The questions that are copied leave the reply at 512 octets or less.
  pub copy_questions-short :
      (n query_len : ℕ) (reply : Bytes) {s : Copied}
      → length reply ≤ max_reply_buffer
      → copy_questions matches order mem n query_len reply ≡ ok s
      → length s.reply ≤ max_reply_buffer
  unfolding copy_questions
  copy_questions-short n query_len reply le h = copy_rounds-short n query_len _ _ le h

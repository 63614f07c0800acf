-- ===== src/Dns/Question.antt =====
-- `Question` of src/dnsd/Message.h, and the first loop of `ProcessQuestions` in
-- src/dnsd/DnsDaemon.cpp, which parses the questions of a query and copies them to the reply.
pub mod Repeats
pub mod Sizes
use v_ubercool.Base.{
  ℕ, zero, suc, ◌+◌, ◌-◌, ◌%◌, ◌^◌, Bool, true, false, not, ◌&&◌, List, [], ◌∷◌, ◌++◌, Bytes,
  length, take, drop, ltb, ◌==◌, if◌then◌else◌,
}
use v_ubercool.Dns.Outcome.{
  Error, question_header_exception, invalid_query, refused, Outcome, ok, err, ◌>>=◌,
}
use v_ubercool.Dns.Header.{header_size, word_at}
use v_ubercool.Dns.Labels.{ByteOrder, Label, Cursor, label_header}

pub record Question : Type 0 where
  pub labels : List Label
  pub buffer_size : ℕ
  pub qtype : ℕ
  pub qclass : ℕ
  pub offset : ℕ

-- `Question::GetSize`.
abbrev pub question_size : Question → ℕ
question_size q = q.buffer_size + 4

-- `max_reply_buffer_`.
abbrev pub max_reply_buffer : ℕ
max_reply_buffer = 512

-- The variables that the loop changes.
pub record Copied : Type 0 where
  pub known : List Label
  pub reply : Bytes
  pub questions : List Question

module _ (matches : Bytes → Bool) (order : ByteOrder) (mem : Bytes) where
  -- The part of the constructor behind the base class.
  read_type : ℕ → ℕ → ℕ → Cursor → Outcome (Question × List Label)
  read_type buffer size offset c =
      let start = buffer + c.buffer_size in
      if ltb (buffer + size) (start + 4)
      then err question_header_exception
      else ok (
        record {
          labels = c.names;
          buffer_size = c.buffer_size;
          qtype = word_at mem start;
          qclass = word_at mem (start + 2);
          offset = offset;
        },
        c.known,
      )

  -- The constructor: the question, and the labels known after it.
  unfoldable pub read_question : ℕ → ℕ → List Label → ℕ → Outcome (Question × List Label)
  unfolding read_type
  read_question buffer size known offset =
      label_header matches order mem buffer size known >>= read_type buffer size offset

  -- What the loop does with a question; `p` is where it stands in the query.
  accept_question : ℕ → Copied → Question × List Label → Outcome Copied
  accept_question p s (q, known) =
      if not (q.qclass == 1) && not (q.qclass == 255)
      then err refused
      else if ltb (length s.reply + question_size q) max_reply_buffer
      then ok (record {
        known = known;
        reply = s.reply ++ take (question_size q) (drop p mem);
        questions = s.questions ++ q ∷ [];
      })
      else err invalid_query

  -- One round, at `bytes_left` octets before the query's end.
  copy_question : ℕ → ℕ → Copied → Outcome Copied
  unfolding accept_question
  copy_question query_len bytes_left s =
      if bytes_left == 0
      then err invalid_query
      else read_question (query_len - bytes_left) bytes_left s.known (length s.reply % 2 ^ 16)
        >>= accept_question (query_len - bytes_left) s

  -- `bytes_left` is not changed from round to round.
  copy_rounds : ℕ → ℕ → ℕ → Copied → Outcome Copied
  unfolding copy_question
  copy_rounds zero query_len bytes_left s = ok s
  copy_rounds (suc n) query_len bytes_left s = elim (copy_question query_len bytes_left s) [
    | err e ↦ err e
    | ok s' ↦ copy_rounds n query_len bytes_left s'
  ]

  -- The loop, for a header that counts `n` questions, on a reply of one header.
  unfoldable pub copy_questions : ℕ → ℕ → Bytes → Outcome Copied
  unfolding copy_rounds
  copy_questions n query_len reply =
      copy_rounds n query_len (query_len - header_size)
        (record { known = []; reply = reply; questions = [] })

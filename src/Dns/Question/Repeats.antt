-- ===== src/Dns/Question/Repeats.antt =====
-- The question loop of `ProcessQuestions` (src/dnsd/DnsDaemon.cpp) never moves on in the query.
use v_ubercool.Base.{
  ℕ, zero, suc, ◌+◌, ◌-◌, ◌%◌, ◌^◌, ◌<◌, ◌≡◌, refl, sym, ap, ◌∙◌, subst, inl, inr, Bool, List, [],
  ◌∷◌, ◌++◌, Bytes, arith, Bool-cases, length, length-append, length-take, ◌≤◌, take, drop, ◌==◌,
  All, All-append,
}
use mathlib.Core.List.{append-nil, append_assoc}
use v_ubercool.Dns.Outcome.{invalid_query, ok, err, >>=-eq-ok, Outcome-cases}
use v_ubercool.Dns.Header.{header_size}
use v_ubercool.Dns.Labels.{ByteOrder, Label, Cursor, label_header}
use v_ubercool.Dns.Labels.Known.{Headed, label_header-known}
use v_ubercool.Dns.Question.{
  Question, question_size, max_reply_buffer, Copied, read_type, read_question, accept_question,
  copy_question, copy_rounds, copy_questions,
}

abbrev pub repeated {ℓ} : {A : Type ℓ} → ℕ → List A → List A
repeated zero xs = []
repeated (suc n) xs = xs ++ repeated n xs

-- The same question, but for where it stands in the reply.
abbrev pub SameQuestion : Question → Question → Type 0
SameQuestion q r = r ≡ record q { offset = r.offset }

module _ (matches : Bytes → Bool) (order : ByteOrder) (mem : Bytes) where
  read_type-known :
      (buffer size offset offset' : ℕ) (c : Cursor) (k : List Label) {q : Question}
      {k0 : List Label}
      → read_type matches order mem buffer size offset c ≡ ok (q, k0)
      → read_type matches order mem buffer size offset' (record c { known = k })
        ≡ ok (record q { offset = offset' }, k)
  unfolding read_type
  read_type-known buffer size offset offset' c k h = ground arith

  -- Reading a question with other known labels, at another place of the reply.
  read_question-known :
      (buffer size offset offset' : ℕ) (k : List Label) {q : Question} {k0 : List Label}
      → All (Headed mem) k
      → read_question matches order mem buffer size [] offset ≡ ok (q, k0)
      → (k' : List Label) × (read_question matches order mem buffer size k offset'
          ≡ ok (record q { offset = offset' }, k'))
        × All (Headed mem) k'
  unfolding read_question
  read_question-known buffer size offset offset' k {q} {k0} a h =
      let (c, e, f) =
        >>=-eq-ok (label_header matches order mem buffer size [])
          (read_type matches order mem buffer size offset) h in
      let (k', g, w) = label_header-known matches order mem buffer size k a e in
      (k', rw g (read_type-known buffer size offset offset' c k' f), w.headed')

  -- What a round that accepts has done.
  abbrev Accepts : ℕ → Copied → Question × List Label → Copied → Type 0
  Accepts p s (q, k) s' =
      (s'.reply ≡ s.reply ++ take (question_size q) (drop p mem))
      × (s'.questions ≡ s.questions ++ q ∷ [])
      × (s'.known ≡ k)
      × (length s'.reply < max_reply_buffer)

  accept_question-Accepts :
      (p : ℕ) (s : Copied) (r : Question × List Label) {s' : Copied}
      → accept_question matches order mem p s r ≡ ok s'
      → Accepts p s r s'
  unfolding accept_question
  accept_question-Accepts p s (q, k) {s'} h =
      let octets = take (question_size q) (drop p mem) in
      ground (arith, length-append s.reply octets, length-take (question_size q) (drop p mem))

  module _ (query_len bytes_left : ℕ) (q : Question) (k0 : List Label) (offset : ℕ)
      (first : read_question matches order mem (query_len - bytes_left) bytes_left [] offset
        ≡ ok (q, k0)) where
    abbrev octets : Bytes
    octets = take (question_size q) (drop (query_len - bytes_left) mem)

    copy_question-same :
        (s : Copied) {s' : Copied}
        → All (Headed mem) s.known
        → copy_question matches order mem query_len bytes_left s ≡ ok s'
        → (r : Question) × SameQuestion q r
          × (s'.reply ≡ s.reply ++ octets)
          × (s'.questions ≡ s.questions ++ r ∷ [])
          × All (Headed mem) s'.known
    unfolding copy_question
    copy_question-same s {s'} a h =
        let (k', g, w) =
          read_question-known (query_len - bytes_left) bytes_left offset (length s.reply % 2 ^ 16)
            s.known a first in
        let here = query_len - bytes_left in
        let r : Question = record q { offset = length s.reply % 2 ^ 16 } in
        elim (Bool-cases (bytes_left == 0)) [
          | inl e ↦ let bad : err invalid_query ≡ ok s' = (rw e at h) in cc
          | inr e ↦
              let taken : accept_question matches order mem here s (r, k') ≡ ok s' =
                (rw (e, g) at h) in
              let (reply, questions, known, short) = accept_question-Accepts here s (r, k') taken in
              (r, refl, reply, questions, rw known w)
        ]

    copy_rounds-same :
        (n : ℕ) (s : Copied) {s' : Copied}
        → All (Headed mem) s.known
        → All (SameQuestion q) s.questions
        → copy_rounds matches order mem n query_len bytes_left s ≡ ok s'
        → (s'.reply ≡ s.reply ++ repeated n octets)
          × (All (SameQuestion q) s'.questions)
          × (length s'.questions ≡ length s.questions + n)
    unfolding copy_rounds
    copy_rounds-same zero s {s'} a b h =
        let same : s ≡ s' = ground arith in
        (
          ap (λ (t : Copied). t.reply) (sym same) ∙ sym (append-nil s.reply),
          subst (λ (t : Copied). All (SameQuestion q) t.questions) same b,
          omega (arith, ap (λ (t : Copied). length t.questions) same),
        )
    copy_rounds-same (suc n) s {s'} a b h =
        elim (Outcome-cases (copy_question matches order mem query_len bytes_left s)) [
          | inl (t, e) ↦
              let (r, same, reply, questions, headed) = copy_question-same s a e in
              let all : All (SameQuestion q) t.questions =
                rw questions (All-append (SameQuestion q) s.questions (r ∷ []) b (same, tt)) in
              let (reply', all', count) =
                copy_rounds-same n t headed all (rw (e, copy_rounds) at h) in
              (
                reply' ∙ ap (λ x. x ++ repeated n octets) reply ∙ append_assoc s.reply octets _,
                all',
                omega (arith, ap length questions, length-append s.questions (r ∷ [])),
              )
          | inr (x, e) ↦ let bad : err x ≡ ok s' = (rw (e, copy_rounds) at h) in cc
        ]

  -- The reply to a query that counts `n` questions, if they are accepted, repeats the octets of the
  -- first question `n` times, and all `n` questions have the name, type and class of the first: the
  -- second and later questions of the query are never read.
  pub copy_questions_repeat_first :
      (n query_len offset : ℕ) (reply : Bytes) (q : Question) (k0 : List Label) {s : Copied}
      → header_size ≤ query_len
      → read_question matches order mem header_size (query_len - header_size) [] offset ≡ ok (q, k0)
      → copy_questions matches order mem n query_len reply ≡ ok s
      → (s.reply ≡ reply ++ repeated n (take (question_size q) (drop header_size mem)))
        × (All (SameQuestion q) s.questions)
        × (length s.questions ≡ n)
  unfolding copy_questions
  copy_questions_repeat_first n query_len offset reply q k0 le first h =
      let here : query_len - (query_len - header_size) ≡ header_size = omega arith in
      let all =
        copy_rounds-same query_len (query_len - header_size) q k0 offset (rw here first) n _ tt tt
          h in
      (rw here at all.0, all.1, omega (arith, all.2))

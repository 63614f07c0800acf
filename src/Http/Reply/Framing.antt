-- ===== src/Http/Reply/Framing.antt =====
-- What a client reads in the reply that `DoReply` (src/httpd/HttpDaemon.cpp) makes.
use v_ubercool.Base.{
  ℕ, zero, suc, ◌≡◌, ◌≢◌, refl, ap, ◌∙◌, inl, inr, Bool, true, false, ◌&&◌, Option, none, some,
  List, [], ◌∷◌, ◌++◌, Bytes, codes, decimal, decimal-IsDigit, IsDigit, number_from,
  number_from-decimal, length, length-append, All, All-append, arith, ◌==◌, if◌then◌else◌, if_intro,
  Bool-cases,
}
use mathlib.Core.List.{append_assoc, append-nil}
use v_ubercool.Http.Request.{HttpRequest, Version, http_1_0, http_1_1, http_version_name}
use v_ubercool.Http.Config.{major, minor}
use v_ubercool.Http.Hosts.{crlf}
use v_ubercool.Http.Reply.{
  Encoding, gzip, deflate, CurrentReply, encoding_name, line, encoding_line, connection_lines,
  header_text, is_head, encoded, update_date, do_reply,
}

-- A client's view of a message, after RFC 7230 3: lines that end in CR LF up to an empty one, and
-- what follows.
pub data Message : Type 0 where
  message : List Bytes → Bytes → Message
  broken : Message

abbrev pub with_line : Bytes → Message → Message
with_line text (message lines rest) = message (text ∷ lines) rest
with_line text broken = broken

-- The text before the first line end, and what follows it.
abbrev cons_text : ℕ → Option (Bytes × Bytes) → Option (Bytes × Bytes)
cons_text c none = none
cons_text c (some (text, rest)) = some (c ∷ text, rest)

pub split_line : Bytes → Option (Bytes × Bytes)
split_line [] = none
split_line (c ∷ []) = none
split_line (c ∷ d ∷ cs) = elim (c == 13 && d == 10) [
  | true ↦ some ([], cs)
  | false ↦ cons_text c (split_line (d ∷ cs))
]

take_line : (Bytes → Message) → Option (Bytes × Bytes) → Message
take_line more none = broken
take_line more (some ([], rest)) = message [] rest
take_line more (some (c ∷ cs, rest)) = with_line (c ∷ cs) (more rest)

pub read_message : ℕ → Bytes → Message
unfolding take_line split_line
read_message zero octets = broken
read_message (suc lines) octets = take_line (read_message lines) (split_line octets)

abbrev pub NoReturn : Bytes → Type 0
NoReturn = All (λ c. c ≢ 13)

-- A line that a reader does not cut short, and does not take for the empty one.
abbrev pub IsLine : Bytes → Type 0
IsLine text = NoReturn text × (text ≢ [])

split_line-append :
    (text rest : Bytes) → NoReturn text → split_line (text ++ 13 ∷ 10 ∷ rest) ≡ some (text, rest)
unfolding split_line
split_line-append [] rest a = refl
split_line-append (c ∷ []) rest a =
    let ne : (c == 13 && 13 == 10) ≡ false = ground arith in rw (ne, split_line) refl
split_line-append (c ∷ d ∷ text) rest a =
    let ne : (c == 13 && d == 10) ≡ false = ground arith in
    rw (ne, split_line) (ap (cons_text c) (split_line-append (d ∷ text) rest a.1))

read_message-line :
    (n : ℕ) (text rest : Bytes)
    → IsLine text
    → read_message (suc n) (line text rest) ≡ with_line text (read_message n rest)
unfolding read_message
read_message-line n [] rest a = absurd (a.1 refl)
read_message-line n (c ∷ cs) rest a = rw (split_line-append (c ∷ cs) rest a.0) refl

read_message-end : (n : ℕ) (rest : Bytes) → read_message (suc n) (crlf ++ rest) ≡ message [] rest
unfolding read_message
read_message-end n rest = refl

line-append : (text rest more : Bytes) → line text rest ++ more ≡ line text (rest ++ more)
line-append text rest more = append_assoc text (crlf ++ rest) more

NoReturn-digits : (n : ℕ) → NoReturn (decimal n)
NoReturn-digits n = digits (decimal n) (decimal-IsDigit n)
  where
    digits : (ds : Bytes) → All IsDigit ds → NoReturn ds
    digits [] a = tt
    digits (d ∷ ds) a = (omega (arith, a.0), digits ds a.1)

read_line :
    (n : ℕ) (text rest body : Bytes) (m : Message)
    → IsLine text
    → read_message n (rest ++ body) ≡ m
    → read_message (suc n) (line text rest ++ body) ≡ with_line text m
read_line n text rest body m a e =
    ap (read_message (suc n)) (line-append text rest body)
    ∙ read_message-line n text (rest ++ body) a
    ∙ ap (with_line text) e

abbrev pub connection_fields : Bool → List Bytes
connection_fields true = codes "Connection: Close" ∷ []
connection_fields false =
    codes "Connection: Keep-Alive" ∷ codes "Keep-Alive: timeout=5, max=100" ∷ []

abbrev pub encoding_fields : Option Encoding → List Bytes → List Bytes
encoding_fields none fields = fields
encoding_fields (some gzip) fields = codes "Content-Encoding: gzip" ∷ fields
encoding_fields (some deflate) fields = codes "Content-Encoding: deflate" ∷ fields

read_connection_lines :
    (n : ℕ) (b : Bool) (body : Bytes)
    → read_message (suc (suc (suc n))) (connection_lines b crlf ++ body)
      ≡ message (connection_fields b) body
unfolding connection_lines
read_connection_lines n true body =
    read_line (suc (suc n)) (codes "Connection: Close") crlf body _ (omega arith, λ e. cc)
      (read_message-end (suc n) body)
read_connection_lines n false body =
    read_line (suc (suc n)) (codes "Connection: Keep-Alive")
      (line (codes "Keep-Alive: timeout=5, max=100") crlf) body _ (omega arith, λ e. cc)
      (read_line (suc n) (codes "Keep-Alive: timeout=5, max=100") crlf body _ (omega arith, λ e. cc)
        (read_message-end n body))

read_encoding_line :
    (n : ℕ) (e : Option Encoding) (b : Bool) (body : Bytes)
    → read_message (suc (suc (suc (suc n)))) (encoding_line e (connection_lines b crlf) ++ body)
      ≡ message (encoding_fields e (connection_fields b)) body
unfolding encoding_line encoding_name
read_encoding_line n none b body = read_connection_lines (suc n) b body
read_encoding_line n (some gzip) b body =
    read_line (suc (suc (suc n))) (codes "Content-Encoding: gzip") (connection_lines b crlf) body _
      (omega arith, λ e. cc) (read_connection_lines n b body)
read_encoding_line n (some deflate) b body =
    read_line (suc (suc (suc n))) (codes "Content-Encoding: deflate") (connection_lines b crlf) body
      _ (omega arith, λ e. cc) (read_connection_lines n b body)

NoReturn-append : (xs ys : Bytes) → NoReturn xs → NoReturn ys → NoReturn (xs ++ ys)
NoReturn-append xs ys a b = All-append (λ c. c ≢ 13) xs ys a b

http_version_name-IsLine : (v : Version) → IsLine (http_version_name v)
unfolding http_version_name
http_version_name-IsLine http_1_0 = (omega arith, λ e. cc)
http_version_name-IsLine http_1_1 = (omega arith, λ e. cc)
http_version_name-IsLine Version.unknown = (omega arith, λ e. cc)

append-IsLine : (xs ys : Bytes) → IsLine xs → NoReturn ys → IsLine (xs ++ ys)
append-IsLine [] ys a b = absurd (a.1 refl)
append-IsLine (x ∷ xs) ys a b = (NoReturn-append (x ∷ xs) ys a.0 b, λ e. cc)

abbrev pub status_line : Version → ℕ → Bytes → Bytes
status_line v code msg = http_version_name v ++ (b' ' ∷ (decimal code ++ (b' ' ∷ msg)))

abbrev pub server_line : Bytes
server_line = codes "Server: vUbercool/" ++ (decimal major ++ (b'.' ∷ decimal minor))

server_line-IsLine : IsLine server_line
server_line-IsLine =
    append-IsLine (codes "Server: vUbercool/") _ (omega arith, λ e. cc)
      (NoReturn-append (decimal major) _ (NoReturn-digits major)
        (omega arith, NoReturn-digits minor))

read_header_text :
    (r : CurrentReply) (v : Version) (code size : ℕ) (msg body : Bytes)
    → IsLine r.date
    → NoReturn msg
    → read_message 9 (header_text r (http_version_name v) code size msg ++ body)
      ≡ message
          (status_line v code msg
            ∷ r.date
            ∷ server_line
            ∷ (codes "Content-Length: " ++ decimal size)
            ∷ codes "Content-Type: text/html; charset=utf-8"
            ∷ encoding_fields r.compression_type (connection_fields r.close_on_reply))
          body
unfolding header_text
read_header_text r v code size msg body date text =
    let rest5 = encoding_line r.compression_type (connection_lines r.close_on_reply crlf) in
    let rest4 = line (codes "Content-Type: text/html; charset=utf-8") rest5 in
    let rest3 = line (codes "Content-Length: " ++ decimal size) rest4 in
    let rest2 = line server_line rest3 in
    let rest1 = line r.date rest2 in
    read_line 8 (status_line v code msg) rest1 body _
      (append-IsLine (http_version_name v) _ (http_version_name-IsLine v)
        (omega arith, NoReturn-append (decimal code) _ (NoReturn-digits code) (omega arith, text)))
      (read_line 7 r.date rest2 body _ date (
        read_line 6 server_line rest3 body _ server_line-IsLine (
          read_line 5 (codes "Content-Length: " ++ decimal size) rest4 body _
            (append-IsLine (codes "Content-Length: ") _ (omega arith, λ e. cc)
              (NoReturn-digits size))
            (read_line 4 (codes "Content-Type: text/html; charset=utf-8") rest5 body _
              (omega arith, λ e. cc)
              (read_encoding_line 0 r.compression_type r.close_on_reply body)))))

abbrev pub flatten : List Bytes → Bytes
flatten [] = []
flatten (b ∷ bs) = b ++ flatten bs

module _ (compress : Encoding → Bytes → Bytes) (format_date : ℕ → Bytes) where
  -- A client that reads the buffers of a reply finds a status line with the code and the text given,
  -- a length that is that of the encoded body, the encoding and whether the connection is kept, and
  -- behind the fields the whole body, or nothing for a HEAD request; and `GetBytes` is what is sent.
  -- The date must be a text of one line, and the reply be prepared.
  pub do_reply_framing :
      (code : ℕ) (msg : Bytes) (req : HttpRequest) (r : CurrentReply)
      → NoReturn msg
      → IsLine r.date
      → IsLine (format_date r.now)
      → r.bytes_in_reply ≡ 0
      → let r' = do_reply compress format_date code msg req r in
        let body = encoded compress format_date r.compression_type r.out in
        (digits : Bytes) × (read_message 9 (flatten r'.buffers)
          ≡ message
              (status_line req.version code msg
                ∷ r'.date
                ∷ server_line
                ∷ (codes "Content-Length: " ++ digits)
                ∷ codes "Content-Type: text/html; charset=utf-8"
                ∷ encoding_fields r.compression_type (connection_fields r.close_on_reply))
              (if is_head req.method then [] else body))
        × (number_from 0 digits ≡ length body)
        × (r'.bytes_in_reply ≡ length (flatten r'.buffers))
  unfolding do_reply
  do_reply_framing code msg req r text date dates zero_bytes =
      let body = encoded compress format_date r.compression_type r.out in
      let r1 = update_date compress format_date r in
      let header = header_text r1 (http_version_name req.version) code (length body) msg in
      let date' : IsLine r1.date = if_intro IsLine (r.now == 0) _ _ (λ _. date) (λ _. dates) in
      (
        decimal (length body),
        elim (Bool-cases (is_head req.method)) [
          | inl h ↦ rw h (read_header_text r1 req.version code (length body) msg [] date' text)
          | inr h ↦ rw h (
              rw (append-nil body)
                (read_header_text r1 req.version code (length body) msg body date' text))
        ],
        number_from-decimal (length body),
        elim (Bool-cases (is_head req.method)) [
          | inl h ↦ rw h (omega (arith, length-append header [], zero_bytes))
          | inr h ↦
              rw h (
                omega (arith, length-append header (body ++ []), length-append body [], zero_bytes))
        ],
      )

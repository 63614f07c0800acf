-- ===== src/Http/Lexer/Lines.antt =====
-- The tokens of a request as a client writes it (src/httpd/HttpRequestParser.h).
use v_ubercool.Base.{
  ℕ, zero, suc, ◌≡◌, refl, Bool, true, false, List, [], ◌∷◌, ◌++◌, Bytes, length, All, arith,
}
use v_ubercool.Http.Parser.{
  Token, str, crlf, blank, comma, h_accept_encoding, accept_encoding_qvalue,
}
use v_ubercool.Http.Parser.RoundTrip.{repeated, words}
use v_ubercool.Http.Parser.RoundTrip.Fields.{
  Coding, gzip, deflate, other, coding_token, items_tokens, line_end, field_tokens, fields_tokens,
}
use v_ubercool.Http.Parser.RoundTrip.Message.{open_tokens, message_tokens, version_token}
use v_ubercool.Http.Lexer.{
  LexerState, initial, http_version, header_name, header_content, header_dnt, accept_encoding,
  is_text, is_name,
}
use v_ubercool.Http.Lexer.Scan.{
  Reads, scan_method, scan_method_blank, scan_uri_blank, scan_version, scan_version_crlf,
  scan_last_crlf, scan_host, scan_column, scan_dnt, scan_encodings, scan_content_blank,
  scan_dnt_blank, scan_dnt_crlf, scan_encoding_blank, scan_comma, scan_encoding_crlf, scan_gzip,
  scan_deflate, scan_dnt_value,
}
use v_ubercool.Http.Lexer.Best.{IsOf}
use v_ubercool.Http.Lexer.Texts.{
  NotFolded, is_strange, scan_strange, scan_uri, scan_str, scan_content_crlf, scan_letter,
  scan_qvalue,
}
use v_ubercool.Http.Lexer.Names.{scan_name}
use v_ubercool.Http.Lexer.Lexes.{Lexes, reads, at_end}
use v_ubercool.Http.Lexer.Octets.{
  Part, Line, host, dnt, encodings, any, Written, times, end_octets, coding_octets, qvalue_octets,
  IsQvalue, IsCoding, parts_octets, words_octets, line_octets, lines_octets, version_octets,
  open_octets, written_octets, cut_octets, IsPart, IsWord, IsLine, IsWritten, items_of, field_of,
  fields_of, message_of,
}

-- A token of one octet, several times.
Lexes-times :
    (s : LexerState) (c : ℕ) (t : Token) (n : ℕ) {rest : Bytes} {ts : List Token}
    → ((u : Bytes) → Reads s (c ∷ u) t s u)
    → Lexes s rest ts
    → Lexes s (times c n rest) (repeated t n ts)
Lexes-times s c t zero h l = l
Lexes-times s c t (suc n) h l = reads (h _) (Lexes-times s c t n h l)

-- The next octet ends a word.
Ends : Bytes → Type 0
Ends [] = ⊥
Ends (d ∷ rest) = is_text d ≡ false

times-Ends : (n : ℕ) (rest : Bytes) → Ends rest → Ends (times 32 n rest)
unfolding Ends is_text
times-Ends zero rest h = h
times-Ends (suc n) rest h = refl

end-Ends : (k : ℕ) (rest : Bytes) → Ends (end_octets k rest)
unfolding Ends is_text
end-Ends k rest = times-Ends k (13 ∷ 10 ∷ rest) refl

words-Ends :
    (more : List (ℕ × Bytes)) (rest : Bytes)
    → All IsWord more
    → Ends rest
    → Ends (words_octets more rest)
unfolding Ends is_text
words-Ends [] rest w h = h
words-Ends ((zero, word) ∷ more) rest w h = absurd (omega (arith, (w.0).0))
words-Ends ((suc n, word) ∷ more) rest w h = refl

Lexes-word :
    (word rest : Bytes) {ts : List Token}
    → IsOf is_text word
    → Ends rest
    → Lexes header_content rest ts
    → Lexes header_content (word ++ rest) (str word ∷ ts)
unfolding Ends
Lexes-word word [] w h l = absurd h
Lexes-word word (d ∷ rest) w h l = reads (scan_str word d rest w h) l

Lexes-words :
    (more : List (ℕ × Bytes)) (rest : Bytes) {ts : List Token}
    → All IsWord more
    → Ends rest
    → Lexes header_content rest ts
    → Lexes header_content (words_octets more rest) (words more ts)
Lexes-words [] rest w h l = l
Lexes-words ((n, word) ∷ more) rest w h l =
    Lexes-times header_content 32 blank n scan_content_blank (
      Lexes-word word (words_octets more rest) (w.0).1 (words-Ends more rest w.1 h)
        (Lexes-words more rest w.1 h l))

Lexes-content_end :
    (k : ℕ) (rest : Bytes) {ts : List Token}
    → NotFolded rest
    → Lexes header_name rest ts
    → Lexes header_content (end_octets k rest) (line_end k ts)
Lexes-content_end k rest h l =
    Lexes-times header_content 32 blank k scan_content_blank (reads (scan_content_crlf rest h) l)

Lexes-dnt_end :
    (k : ℕ) (rest : Bytes) {ts : List Token}
    → Lexes header_name rest ts
    → Lexes header_dnt (end_octets k rest) (line_end k ts)
Lexes-dnt_end k rest l =
    Lexes-times header_dnt 32 blank k scan_dnt_blank (reads (scan_dnt_crlf rest) l)

Lexes-encodings_end :
    (k : ℕ) (rest : Bytes) {ts : List Token}
    → Lexes header_name rest ts
    → Lexes accept_encoding (end_octets k rest) (line_end k ts)
Lexes-encodings_end k rest l =
    Lexes-times accept_encoding 32 blank k scan_encoding_blank (reads (scan_encoding_crlf rest) l)

Lexes-qvalues :
    (qs : List (ℕ × ℕ)) (rest : Bytes) {ts : List Token}
    → All IsQvalue qs
    → Lexes accept_encoding rest ts
    → Lexes accept_encoding (qvalue_octets qs rest) (repeated accept_encoding_qvalue (length qs) ts)
Lexes-qvalues [] rest h l = l
Lexes-qvalues ((m, n) ∷ qs) rest h l =
    reads (scan_qvalue m n _ (h.0).0 (h.0).1) (Lexes-qvalues qs rest h.1 l)

Lexes-coding :
    (c : Coding) (letter : ℕ) (rest : Bytes) {ts : List Token}
    → IsCoding c letter
    → Lexes accept_encoding rest ts
    → Lexes accept_encoding (coding_octets c letter ++ rest) (coding_token c ∷ ts)
Lexes-coding gzip letter rest h l = reads (scan_gzip rest) l
Lexes-coding deflate letter rest h l = reads (scan_deflate rest) l
Lexes-coding other letter rest h l = reads (scan_letter letter rest h.0 h.1 h.2) l

Lexes-parts :
    (ps : List Part) (rest : Bytes) {ts : List Token}
    → All IsPart ps
    → Lexes accept_encoding rest ts
    → Lexes accept_encoding (parts_octets ps rest) (items_tokens (items_of ps) ts)
Lexes-parts [] rest h l = l
Lexes-parts (p ∷ ps) rest h l = Lexes-times accept_encoding 32 blank p.blanks scan_encoding_blank (
    Lexes-coding p.coding p.letter _ (h.0).0 (
      Lexes-qvalues p.qvalues _ (h.0).1
        (Lexes-times accept_encoding 44 comma p.commas scan_comma (Lexes-parts ps rest h.1 l))))

Lexes-line :
    (line : Line) (rest : Bytes) {ts : List Token}
    → IsLine line
    → NotFolded rest
    → Lexes header_name rest ts
    → Lexes header_name (line_octets line rest) (field_tokens (field_of line) ts)
Lexes-line (host n name k) rest w h l = reads (scan_host _) (
    reads (scan_column _) (
      Lexes-times header_content 32 blank n scan_content_blank
        (Lexes-word name (end_octets k rest) w (end-Ends k rest) (Lexes-content_end k rest h l))))
Lexes-line (dnt n true k) rest w h l = reads (scan_dnt _) (
    Lexes-times header_dnt 32 blank n scan_dnt_blank
      (reads (scan_dnt_value true _) (Lexes-dnt_end k rest l)))
Lexes-line (dnt n false k) rest w h l = reads (scan_dnt _) (
    Lexes-times header_dnt 32 blank n scan_dnt_blank
      (reads (scan_dnt_value false _) (Lexes-dnt_end k rest l)))
Lexes-line (encodings ps k) rest w h l =
    reads (scan_encodings _) (Lexes-parts ps (end_octets k rest) w (Lexes-encodings_end k rest l))
Lexes-line (any name n word more k) rest w h l = reads (scan_name name _ w.0) (
    reads (scan_column _) (
      Lexes-times header_content 32 blank n scan_content_blank (
        Lexes-word word _ w.1 (words-Ends more (end_octets k rest) w.2 (end-Ends k rest)) (
          Lexes-words more (end_octets k rest) w.2 (end-Ends k rest)
            (Lexes-content_end k rest h l)))))

name-NotFolded : (name rest : Bytes) → IsOf is_name name → NotFolded (name ++ rest)
unfolding is_name
name-NotFolded [] rest h = absurd h
name-NotFolded (c ∷ name) rest h = let first = h.0 in ground arith

lines-NotFolded :
    (ls : List Line) (rest : Bytes)
    → All IsLine ls
    → NotFolded rest
    → NotFolded (lines_octets ls rest)
lines-NotFolded [] rest w h = h
lines-NotFolded (host n name k ∷ ls) rest w h = refl
lines-NotFolded (dnt n on k ∷ ls) rest w h = refl
lines-NotFolded (encodings ps k ∷ ls) rest w h = refl
lines-NotFolded (any name n word more k ∷ ls) rest w h = name-NotFolded name _ (w.0).0.named

Lexes-lines :
    (ls : List Line) (rest : Bytes) {ts : List Token}
    → All IsLine ls
    → NotFolded rest
    → Lexes header_name rest ts
    → Lexes header_name (lines_octets ls rest) (fields_tokens (fields_of ls) ts)
Lexes-lines [] rest w h l = l
Lexes-lines (line ∷ ls) rest w h l =
    Lexes-line line _ w.0 (lines-NotFolded ls rest w.1 h) (Lexes-lines ls rest w.1 h l)

Lexes-version :
    (is_1_0 : Bool) (rest : Bytes) {ts : List Token}
    → Lexes header_name rest ts
    → Lexes http_version
        (version_octets is_1_0 ++ 13 ∷ 10 ∷ rest)
        (version_token is_1_0 ∷ crlf ∷ ts)
Lexes-version true rest l = reads (scan_version true _) (reads (scan_version_crlf rest) l)
Lexes-version false rest l = reads (scan_version false _) (reads (scan_version_crlf rest) l)

Lexes-opened :
    (w : Written) (rest : Bytes) {ts : List Token}
    → IsWritten w
    → NotFolded rest
    → Lexes header_name rest ts
    → Lexes initial (open_octets w rest) (open_tokens (message_of w) ts)
Lexes-opened w rest h n l = reads (scan_method w.method _) (
    reads (scan_method_blank _) (
      reads (scan_uri w.target _ h.has_target) (
        reads (scan_uri_blank _)
          (Lexes-version w.is_1_0 _ (Lexes-lines w.lines rest h.has_lines n l)))))

-- The tokens of a request are those that the grammar expects.
pub Lexes-written :
    (w : Written) (rest : Bytes) {ts : List Token}
    → IsWritten w
    → Lexes header_name rest ts
    → Lexes initial (written_octets w rest) (message_tokens (message_of w) ts)
Lexes-written w rest h l = Lexes-opened w (13 ∷ 10 ∷ rest) h refl (reads (scan_last_crlf rest) l)

-- They end at an octet that begins no encoding.
pub Lexes-cut :
    (w : Written) (ps : List Part) (k c : ℕ) (rest : Bytes)
    → IsWritten w
    → All IsPart ps
    → is_strange c ≡ true
    → Lexes initial (open_octets w (cut_octets ps k c rest)) (
        open_tokens
          (message_of w)
          (h_accept_encoding ∷ items_tokens (items_of ps) (repeated blank k [])))
Lexes-cut w ps k c rest h parts strange = Lexes-opened w (cut_octets ps k c rest) h refl (
    reads (scan_encodings _) (
      Lexes-parts ps (times 32 k (c ∷ rest)) parts (
        Lexes-times accept_encoding 32 blank k scan_encoding_blank
          (at_end (scan_strange c rest strange)))))

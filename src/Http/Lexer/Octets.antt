-- ===== src/Http/Lexer/Octets.antt =====
-- Requests as the octets that a client sends, for src/httpd/HttpRequestParser.h.
use v_ubercool.Base.{
  ℕ, zero, suc, ◌<◌, ◌≡◌, Bool, true, false, List, [], ◌∷◌, ◌++◌, Bytes, codes, length, All,
  if◌then◌else◌,
}
use v_ubercool.Http.Request.{Method, method_name}
use v_ubercool.Http.Parser.RoundTrip.Fields.{Coding, gzip, deflate, other, Item, Field}
use v_ubercool.Http.Parser.RoundTrip.Message.{Message}
use v_ubercool.Http.Lexer.{is_text, is_letter, is_digit, same_letter}
use v_ubercool.Http.Lexer.Best.{IsOf}
use v_ubercool.Http.Lexer.Names.{IsOther}

-- An encoding: the blanks before it, its name (`letter`, where it is another one than "gzip" and
-- "deflate"), the digits of its q-values, and the number of commas behind it.
pub record Part : Type 0 where
  pub blanks : ℕ
  pub coding : Coding
  pub letter : ℕ
  pub qvalues : List (ℕ × ℕ)
  pub commas : ℕ

-- A line of the header: the numbers are those of the blanks before the value and behind it. The first
-- text of `any` is the field's name.
pub data Line : Type 0 where
  host : ℕ → Bytes → ℕ → Line
  dnt : ℕ → Bool → ℕ → Line
  encodings : List Part → ℕ → Line
  any : Bytes → ℕ → Bytes → List (ℕ × Bytes) → ℕ → Line

pub record Written : Type 0 where
  pub method : Method
  pub target : Bytes
  pub is_1_0 : Bool
  pub lines : List Line

-- An octet several times before others.
abbrev pub times : ℕ → ℕ → Bytes → Bytes
times c zero rest = rest
times c (suc n) rest = c ∷ times c n rest

abbrev pub end_octets : ℕ → Bytes → Bytes
end_octets n rest = times 32 n (13 ∷ 10 ∷ rest)

abbrev pub coding_octets : Coding → ℕ → Bytes
coding_octets gzip letter = codes "gzip"
coding_octets deflate letter = codes "deflate"
coding_octets other letter = letter ∷ []

abbrev pub qvalue_octets : List (ℕ × ℕ) → Bytes → Bytes
qvalue_octets [] rest = rest
qvalue_octets ((m, n) ∷ more) rest = codes ";q=" ++ m ∷ 46 ∷ n ∷ qvalue_octets more rest

abbrev pub part_octets : Part → Bytes → Bytes
part_octets p rest =
    times 32 p.blanks
      (coding_octets p.coding p.letter ++ qvalue_octets p.qvalues (times 44 p.commas rest))

abbrev pub parts_octets : List Part → Bytes → Bytes
parts_octets [] rest = rest
parts_octets (p ∷ ps) rest = part_octets p (parts_octets ps rest)

abbrev pub words_octets : List (ℕ × Bytes) → Bytes → Bytes
words_octets [] rest = rest
words_octets ((n, word) ∷ more) rest = times 32 n (word ++ words_octets more rest)

abbrev pub dnt_octet : Bool → ℕ
dnt_octet true = 49
dnt_octet false = 48

abbrev pub line_octets : Line → Bytes → Bytes
line_octets (host n name k) rest = codes "Host" ++ 58 ∷ times 32 n (name ++ end_octets k rest)
line_octets (dnt n on k) rest = codes "DNT:" ++ times 32 n (dnt_octet on ∷ end_octets k rest)
line_octets (encodings ps k) rest = codes "Accept-Encoding:" ++ parts_octets ps (end_octets k rest)
line_octets (any name n word more k) rest =
    name ++ 58 ∷ times 32 n (word ++ words_octets more (end_octets k rest))

abbrev pub lines_octets : List Line → Bytes → Bytes
lines_octets [] rest = rest
lines_octets (l ∷ ls) rest = line_octets l (lines_octets ls rest)

abbrev pub version_octets : Bool → Bytes
version_octets is_1_0 = if is_1_0 then codes "HTTP/1.0" else codes "HTTP/1.1"

-- The first line and the fields of a request, and what comes behind them.
abbrev pub open_octets : Written → Bytes → Bytes
open_octets w rest =
    method_name w.method
    ++ 32 ∷ (w.target ++ 32 ∷ (version_octets w.is_1_0 ++ 13 ∷ 10 ∷ lines_octets w.lines rest))

-- A request and what comes behind it.
abbrev pub written_octets : Written → Bytes → Bytes
written_octets w rest = open_octets w (13 ∷ 10 ∷ rest)

-- A line of encodings with an octet that begins none.
abbrev pub cut_octets : List Part → ℕ → ℕ → Bytes → Bytes
cut_octets ps k c rest = codes "Accept-Encoding:" ++ parts_octets ps (times 32 k (c ∷ rest))

-- What may be written: texts without white space; names of digits, letters, '_' and '-' that are not
-- those of the fields the grammar knows; and a letter for an encoding that is neither g nor d, with
-- which the names of the others begin.
abbrev pub IsQvalue : ℕ × ℕ → Type 0
IsQvalue (m, n) = (is_digit m ≡ true) × (is_digit n ≡ true)

abbrev pub IsCoding : Coding → ℕ → Type 0
IsCoding other c =
    (is_letter c ≡ true) × (same_letter b'g' c ≡ false) × (same_letter b'd' c ≡ false)
IsCoding _ c = Unit

abbrev pub IsPart : Part → Type 0
IsPart p = IsCoding p.coding p.letter × All IsQvalue p.qvalues

-- A further word stands behind a blank.
abbrev pub IsWord : ℕ × Bytes → Type 0
IsWord (n, word) = (0 < n) × IsOf is_text word

abbrev pub IsLine : Line → Type 0
IsLine (host n name k) = IsOf is_text name
IsLine (dnt n on k) = Unit
IsLine (encodings ps k) = All IsPart ps
IsLine (any name n word more k) = IsOther name × IsOf is_text word × All IsWord more

pub record IsWritten (w : Written) : Type 0 where
  pub has_target : IsOf is_text w.target
  pub has_lines : All IsLine w.lines

-- What the grammar sees of it.
abbrev pub item_of : Part → Item
item_of p = record {
  blanks = p.blanks;
  coding = p.coding;
  qvalues = length p.qvalues;
  commas = p.commas;
}

abbrev pub items_of : List Part → List Item
items_of [] = []
items_of (p ∷ ps) = item_of p ∷ items_of ps

abbrev pub field_of : Line → Field
field_of (host n name k) = Field.host n name k
field_of (dnt n on k) = Field.dnt n on k
field_of (encodings ps k) = Field.encodings (items_of ps) k
field_of (any name n word more k) = Field.any n word more k

abbrev pub fields_of : List Line → List Field
fields_of [] = []
fields_of (l ∷ ls) = field_of l ∷ fields_of ls

abbrev pub message_of : Written → Message
message_of w = record {
  method = w.method;
  target = w.target;
  is_1_0 = w.is_1_0;
  fields = fields_of w.lines;
}

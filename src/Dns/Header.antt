-- ===== src/Dns/Header.antt =====
-- `MessageHeader` of src/dnsd/Message.h: the twelve octets before a DNS message. `ntohs` and `htons`
-- around a 16-bit load or store read and write two octets, the high one first.
pub mod Flags
pub mod RoundTrip
use v_ubercool.Base.{
  ℕ, ◌+◌, ◌*◌, ◌/◌, ◌%◌, ◌^◌, Bool, not, Option, none, some, List, [], ◌∷◌, ◌++◌, bit_and, bit_or,
  Bytes, length, get_elem?, drop, ltb, ◌==◌, if◌then◌else◌,
}
use v_ubercool.Dns.Outcome.{Error, message_header_exception, Outcome, ok, err}

pub data Rcode : Type 0 where
  no_error format_error server_failure name_error not_implemented refused : Rcode

unfoldable pub rcode_value : Rcode → ℕ
rcode_value no_error = 0
rcode_value format_error = 1
rcode_value server_failure = 2
rcode_value name_error = 3
rcode_value not_implemented = 4
rcode_value refused = 5

pub record MessageHeader : Type 0 where
  pub id : ℕ
  pub flags : ℕ
  pub qdcount : ℕ
  pub ancount : ℕ
  pub nscount : ℕ
  pub arcount : ℕ

-- `GetSize()`.
abbrev pub header_size : ℕ
header_size = 12

abbrev octet : Option ℕ → ℕ
octet none = 0
octet (some b) = b

-- `ntohs(*p)` at an octet offset that the caller has checked.
unfoldable pub word_at : Bytes → ℕ → ℕ
word_at b i = octet (get_elem? b i) * 256 + octet (get_elem? b (i + 1))

-- What `*p++ = htons(w)` stores.
abbrev pub word_bytes : ℕ → Bytes
word_bytes w = w / 256 % 256 ∷ w % 256 ∷ []

unfoldable pub read_header : Bytes → ℕ → Outcome MessageHeader
read_header buffer size =
    if ltb size header_size
    then err message_header_exception
    else ok (record {
      id = word_at buffer 0;
      flags = word_at buffer 2;
      qdcount = word_at buffer 4;
      ancount = word_at buffer 6;
      nscount = word_at buffer 8;
      arcount = word_at buffer 10;
    })

unfoldable pub get_qr : MessageHeader → Bool
get_qr h = not (bit_and h.flags 0x8000 == 0)

unfoldable pub get_opcode : MessageHeader → ℕ
get_opcode h = bit_and (h.flags / 2 ^ 11) 0xF

unfoldable pub get_aa : MessageHeader → Bool
get_aa h = not (bit_and h.flags 0x400 == 0)

unfoldable pub get_tc : MessageHeader → Bool
get_tc h = not (bit_and h.flags 0x200 == 0)

unfoldable pub get_rd : MessageHeader → Bool
get_rd h = not (bit_and h.flags 0x100 == 0)

unfoldable pub get_ra : MessageHeader → Bool
get_ra h = not (bit_and h.flags 0x80 == 0)

unfoldable pub get_z : MessageHeader → ℕ
get_z h = bit_and (h.flags / 2 ^ 4) 0xF

unfoldable pub get_rcode : MessageHeader → ℕ
get_rcode h = bit_and h.flags 0xF

-- `flags &= ~mask; if (on) flags |= mask`. The complement of a mask is written out on 16 bits.
abbrev store_flag : ℕ → ℕ → Bool → MessageHeader → MessageHeader
store_flag complement mask on h =
    let cleared = bit_and h.flags complement in
    record h { flags = if on then bit_or cleared mask else cleared }

unfoldable pub set_qr : Bool → MessageHeader → MessageHeader
set_qr qr h = store_flag 0x7FFF 0x8000 qr h

unfoldable pub set_tc : Bool → MessageHeader → MessageHeader
set_tc tc h = store_flag 0xFDFF 0x200 tc h

unfoldable pub set_ra : Bool → MessageHeader → MessageHeader
set_ra ra h = store_flag 0xFF7F 0x80 ra h

unfoldable pub set_aa : Bool → MessageHeader → MessageHeader
set_aa aa h = store_flag 0xFBFF 0x400 aa h

unfoldable pub set_opcode : ℕ → MessageHeader → MessageHeader
set_opcode opcode h = record h {
  flags = bit_or (bit_and h.flags 0x87FF) (bit_and opcode 0xF * 2 ^ 11);
}

unfoldable pub set_rcode : Rcode → MessageHeader → MessageHeader
unfolding rcode_value
set_rcode code h = record h {
  flags = bit_or (bit_and h.flags 0xFFF0) (bit_and (rcode_value code) 0xF);
}

unfoldable pub set_counts : ℕ → ℕ → ℕ → ℕ → MessageHeader → MessageHeader
set_counts qd an ns ar h = record h { qdcount = qd; ancount = an; nscount = ns; arcount = ar }

unfoldable pub reset_all_counters : MessageHeader → MessageHeader
reset_all_counters h = record h { qdcount = 0; ancount = 0; nscount = 0; arcount = 0 }

unfoldable pub header_bytes : MessageHeader → Bytes
header_bytes h =
    word_bytes h.id
    ++ (word_bytes h.flags
        ++ (word_bytes h.qdcount
            ++ (word_bytes h.ancount ++ (word_bytes h.nscount ++ word_bytes h.arcount))))

-- `Write(&buffer[0])`: the first twelve octets are overwritten.
unfoldable pub write_header : MessageHeader → Bytes → Bytes
unfolding header_bytes
write_header h buffer = header_bytes h ++ drop header_size buffer

-- ===== src/Dns/Header/RoundTrip.antt =====
-- `Write` and the constructor of `MessageHeader`, src/dnsd/Message.h, against each other.
use v_ubercool.Base.{ℕ, ◌<◌, ◌≤◌, ◌≡◌, Bytes, length, length-append, length-drop, drop, arith}
use v_ubercool.Dns.Outcome.{ok}
use v_ubercool.Dns.Header.{
  MessageHeader, header_size, header_bytes, read_header, write_header, word_at,
}

-- Every field is a 16-bit number.
pub record IsWord (h : MessageHeader) : Type 0 where
  pub id : h.id < 65536
  pub flags : h.flags < 65536
  pub qdcount : h.qdcount < 65536
  pub ancount : h.ancount < 65536
  pub nscount : h.nscount < 65536
  pub arcount : h.arcount < 65536

-- A header of 16-bit fields that is written over the front of any buffer is read back whole.
pub read_header-write_header :
    (h : MessageHeader) (buffer : Bytes) (size : ℕ)
    → IsWord h
    → header_size ≤ size
    → read_header (write_header h buffer) size ≡ ok h
unfolding read_header write_header word_at
read_header-write_header h buffer size w le = ground arith

pub length-write_header :
    (h : MessageHeader) (buffer : Bytes)
    → header_size ≤ length buffer
    → length (write_header h buffer) ≡ length buffer
unfolding write_header
length-write_header h buffer le = omega (
  arith,
  length-append (header_bytes h) (drop header_size buffer),
  length-drop header_size buffer,
)

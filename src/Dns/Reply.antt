-- ===== src/Dns/Reply.antt =====
-- The headers that src/dnsd/DnsDaemon.cpp puts on a reply: `CreateErrorReply` and the end of
-- `ProcessQuestions`.
pub mod Fields
use v_ubercool.Base.{ℕ, Bool, true, false, Bytes, resize}
use v_ubercool.Dns.Header.{
  MessageHeader, header_size, Rcode, set_qr, set_tc, set_ra, set_aa, set_rcode, set_counts,
  reset_all_counters, write_header,
}

unfoldable pub error_header : Rcode → MessageHeader → MessageHeader
error_header code hdr = reset_all_counters (set_rcode code (set_qr true hdr))

unfoldable pub create_error_reply : Rcode → MessageHeader → Bytes → Bytes
create_error_reply code hdr reply_buffer =
    write_header (error_header code hdr) (resize header_size 0 reply_buffer)

pub record Counts : Type 0 where
  pub questions : ℕ
  pub answers : ℕ
  pub ns : ℕ
  pub opt : ℕ

unfoldable pub answer_header : Bool → Bool → Counts → MessageHeader → MessageHeader
answer_header truncated authorative n header =
    set_counts n.questions n.answers n.ns n.opt
      (set_aa authorative (set_ra false (set_qr true (set_tc truncated header))))

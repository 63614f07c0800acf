-- ===== src/Dns/Records.antt =====
-- `AnswerBase` and its subclasses of src/dnsd/Message.h: resource records written to a reply.
-- A reply buffer comes with the list `label_start_points_` that all records of a reply share.
pub mod Layout
use v_ubercool.Base.{
  ℕ, ◌+◌, ◌*◌, ◌/◌, ◌%◌, ◌^◌, ◌-◌, Bool, true, false, not, Option, none, some, List, [], ◌∷◌, ◌++◌,
  Bytes, length, take, set, replicate, bit_or, ◌==◌, if◌then◌else◌,
}
use v_ubercool.Dns.Outcome.{std_out_of_range, Outcome, ok, err, ◌>>=◌}
use v_ubercool.Dns.Header.{word_bytes}
use v_ubercool.Dns.Names.{Writer, write_domain_name, add_label_for_compression}

-- What `RdataSoa` reads of its zone: the name of the first name server, if there is one, the
-- fields of the SOA record, and the labels of the zone and its parents.
pub record Soa : Type 0 where
  pub mname : Option Bytes
  pub rname : Bytes
  pub serial : ℕ
  pub refresh : ℕ
  pub retry : ℕ
  pub expire : ℕ
  pub minimum : ℕ
  pub zone : List Bytes

-- The subclasses, with their members.
pub data Rdata : Type 0 where
  a : Bytes → Rdata
  cname : Bytes → Rdata
  mx : ℕ → Bytes → Rdata
  ns : Bytes → Rdata
  soa : Soa → Rdata

-- The argument `rType` of each subclass.
unfoldable pub rtype : Rdata → ℕ
rtype (a ip) = 1
rtype (cname name) = 5
rtype (mx priority fqdn) = 15
rtype (ns fqdn) = 2
rtype (soa zone) = 6

-- The argument `rDlength`.
unfoldable pub initial_rdlength : Rdata → ℕ
initial_rdlength (a ip) = 4
initial_rdlength _ = 0

-- The two constructors of `AnswerBase`, by name and by pointer.
pub record Answer : Type 0 where
  pub name : Bytes
  pub name_ptr : ℕ
  pub rdata : Rdata

unfoldable pub answer_named : Bytes → Rdata → Answer
answer_named name rdata = record { name = name; name_ptr = 0; rdata = rdata }

unfoldable pub answer_at : ℕ → Rdata → Answer
answer_at name_ptr rdata = record { name = []; name_ptr = bit_or name_ptr 0xC000; rdata = rdata }

-- `htonl`.
abbrev pub long_bytes : ℕ → Bytes
long_bytes n = n / 2 ^ 24 % 256 ∷ n / 2 ^ 16 % 256 ∷ n / 2 ^ 8 % 256 ∷ n % 256 ∷ []

-- `class_` and `ttl_`.
abbrev pub in_class : ℕ
in_class = 1

abbrev pub ttl : ℕ
ttl = 300

-- The last ten octets of a record header.
unfoldable pub fixed_bytes : ℕ → ℕ → Bytes
fixed_bytes type rdlength =
    word_bytes type ++ (word_bytes in_class ++ (long_bytes ttl ++ word_bytes rdlength))

abbrev is_empty : Bytes → Bool
is_empty [] = true
is_empty (c ∷ cs) = false

-- The owner's name, if it is given as text.
write_owner : Writer → Answer → Outcome Writer
write_owner w ans = if not (is_empty ans.name) then write_domain_name w ans.name [] else ok w

-- The owner's name, if it is a pointer: the buffer is enlarged by all twelve octets first.
write_pointer : Writer → Answer → Outcome Writer
write_pointer w ans =
    if ans.name_ptr == 0
    then ok w
    else add_label_for_compression ans.name_ptr
        (w.buffer ++ (word_bytes ans.name_ptr ++ replicate 10 0)) w.points
      >>= λ points. ok (record { buffer = w.buffer ++ word_bytes ans.name_ptr; points = points })

unfoldable pub write_record_header : Writer → Answer → Outcome Writer
unfolding write_owner write_pointer fixed_bytes
write_record_header w ans = write_owner w ans >>= λ w1. write_pointer w1 ans >>= λ w2.
    ok (record w2 {
      buffer = w2.buffer ++ fixed_bytes (rtype ans.rdata) (initial_rdlength ans.rdata);
    })

append_bytes : Writer → Bytes → Writer
append_bytes w bytes = record w { buffer = w.buffer ++ bytes }

write_soa : Writer → Soa → Option Bytes → Outcome Writer
unfolding append_bytes
write_soa w s none = err std_out_of_range
write_soa w s (some mname) = write_domain_name w mname s.zone >>= λ w1.
    write_domain_name w1 s.rname s.zone >>= λ w2. ok (
      append_bytes w2 (
        long_bytes s.serial
        ++ (long_bytes s.refresh
            ++ (long_bytes s.retry ++ (long_bytes s.expire ++ long_bytes s.minimum)))))

-- What `Write` of each subclass does behind `WriteHeader`, but for the record's length.
unfoldable pub write_rdata : Writer → Rdata → Outcome Writer
unfolding append_bytes write_soa
write_rdata w (a ip) = ok (append_bytes w ip)
write_rdata w (cname name) = write_domain_name w name []
write_rdata w (mx priority fqdn) = write_domain_name (append_bytes w (word_bytes priority)) fqdn []
write_rdata w (ns fqdn) = write_domain_name w fqdn []
write_rdata w (soa s) = write_soa w s s.mname

-- `WriteRdlength`: two octets are overwritten at `position`.
unfoldable pub write_rdlength : ℕ → ℕ → Bytes → Bytes
write_rdlength position rdlength buffer =
    set (set buffer position (rdlength / 256 % 256)) (position + 1) (rdlength % 256)

-- An address record has its length from the start.
abbrev patches_length : Rdata → Bool
patches_length (a ip) = false
patches_length _ = true

-- The record in the buffer, with `GetSize()`.
pub record Written : Type 0 where
  pub writer : Writer
  pub size : ℕ

finish_record : ℕ → Writer → Rdata → Writer → Written
unfolding write_rdlength
finish_record orig_len header rdata w =
    let rdlength = length w.buffer - length header.buffer in
    record {
      writer = record w {
        buffer =
            if patches_length rdata
            then write_rdlength (length header.buffer - 2) (rdlength % 2 ^ 16) w.buffer
            else w.buffer;
      };
      size =
          length header.buffer - orig_len + (if patches_length rdata then rdlength % 2 ^ 16 else 4);
    }

unfoldable pub write_record : Writer → Answer → Outcome Written
unfolding write_record_header write_rdata finish_record
write_record w ans = write_record_header w ans >>= λ header.
    write_rdata header ans.rdata >>= λ w'. ok (finish_record (length w.buffer) header ans.rdata w')

-- `Revert`: back to the length before `Write`.
unfoldable pub revert : ℕ → Bytes → Bytes
revert orig_len buffer = take orig_len buffer

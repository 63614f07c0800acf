-- ===== src/Dns/Tests.antt =====
-- Runs of the DNS server on small messages.
use v_ubercool.Base.{
  ℕ, ◌+◌, ◌-◌, ◌≡◌, ◌≢◌, refl, Bool, true, false, none, some, [], ◌∷◌, ◌++◌, Bytes, length, take,
  drop, equal, arith, All,
}
use v_ubercool.Dns.Outcome.{ok, err, out_of_fuel, illegal_pointer}
use v_ubercool.Base.{◌↔◌}
use v_ubercool.Dns.Header.{
  MessageHeader, header_size, name_error, rcode_value, read_header, write_header, get_qr,
  get_opcode, get_aa, get_tc, get_rd, get_ra, get_rcode, word_at, set_counts, set_qr, set_aa,
  set_ra, set_tc,
}
use v_ubercool.Dns.Reply.{Counts, create_error_reply, answer_header, error_header}
use v_ubercool.Dns.Labels.{little, big, Label, Cursor, label_header}
use v_ubercool.Dns.Zones.{Zone, ZoneMgr, scan_level, lookup}
use v_ubercool.Dns.Question.{Question, question_size, read_question, copy_questions, Copied}
use v_ubercool.Dns.Names.{
  Writer, add_label_for_compression, append_name, to_fragments, qualified, write_domain_name,
  reverse_compare,
}
use v_ubercool.Dns.Sections.{process_sections}
use v_ubercool.Dns.Records.{
  a, answer_at, Answer, Written, fixed_bytes, rtype, initial_rdlength, write_record, revert,
}
use v_ubercool.Stats.{unset}
use v_ubercool.Dns.Daemon.{replied, process_questions, process_query}
use v_ubercool.Dns.Header.RoundTrip.{read_header-write_header}
use v_ubercool.Dns.Reply.Fields.{answer_header_fields, create_error_reply_fields}
use v_ubercool.Dns.Labels.Bounds.{Accepted, label_header-Accepted}
use v_ubercool.Dns.Labels.Fuel.{label_header_terminates}
use v_ubercool.Dns.Labels.Known.{LikeCursor, label_header-known}
use v_ubercool.Dns.Labels.Pointers.{
  pointer_target, pointer_value_orders, first_name_pointer_refused,
}
use v_ubercool.Dns.Labels.{pointer_value}
use v_ubercool.Dns.Question.Repeats.{repeated, SameQuestion, copy_questions_repeat_first}
use v_ubercool.Dns.Names.Decode.{Decodes, at_root, at_label}
use v_ubercool.Dns.Names.Compare.{IsOk, unmatched, reverse_compare_total}
use v_ubercool.Dns.Names.Write.{PointsAtNames, append_name-Decodes}
use v_ubercool.Dns.Names.Writers.{IsSound, write_domain_name-IsSound}
use v_ubercool.Dns.Records.Layout.{IsOwner, IsData, write_record_layout, revert-write_record}
use v_ubercool.Dns.Zones.Lookup.{choose_from, scan_level-choose_from}
use v_ubercool.Dns.Daemon.Identity.{Answers, process_query-Answers}
use v_ubercool.Dns.Daemon.Replies.{IsShort, process_query-IsShort}

-- The texts of labels are not restricted, and compared octet by octet.
abbrev any_text : Bytes → Bool
any_text text = true

abbrev leaf : Zone
leaf = record {
  parent = some 0;
  label = b'w' ∷ [];
  a = (10 ∷ 0 ∷ 0 ∷ 1 ∷ []) ∷ [];
  ns = [];
  mx = [];
  cname = [];
  soa = none;
  children = [];
  authorative = true;
}

abbrev root : Zone
root = record {
  parent = none;
  label = b'n' ∷ [];
  a = [];
  ns = [];
  mx = [];
  cname = [];
  soa =
      some
        (record { rname = b'r' ∷ []; serial = 1; refresh = 2; retry = 3; expire = 4; minimum = 5 });
  children = 1 ∷ [];
  authorative = true;
}

-- The zone "n" with "w.n" in it.
abbrev zones : ZoneMgr
zones = record { objects = root ∷ leaf ∷ []; zones = 0 ∷ [] }

-- Asks for the addresses of "w.n".
abbrev query : Bytes
query =
    18 ∷ 52 ∷ 1 ∷ 0 ∷ 0 ∷ 1 ∷ 0 ∷ 0 ∷ 0 ∷ 0 ∷ 0 ∷ 0 ∷ 1 ∷ b'w' ∷ 1 ∷ b'n' ∷ 0 ∷ 0 ∷ 1 ∷ 0 ∷ 1 ∷ []

-- The question again, and the address under a pointer to its name.
abbrev reply_to_query : Bytes
reply_to_query =
    18 ∷ 52 ∷ 133 ∷ 0 ∷ 0 ∷ 1 ∷ 0 ∷ 1 ∷ 0 ∷ 0 ∷ 0 ∷ 0 ∷ 1 ∷ b'w' ∷ 1 ∷ b'n' ∷ 0 ∷ 0 ∷ 1 ∷ 0 ∷ 1
    ∷ 192 ∷ 12 ∷ 0 ∷ 1 ∷ 0 ∷ 1 ∷ 0 ∷ 0 ∷ 1 ∷ 44 ∷ 0 ∷ 4 ∷ 10 ∷ 0 ∷ 0 ∷ 1 ∷ []

process_query-query :
    process_query any_text little equal zones query (length query) ≡ replied reply_to_query unset 0
unfolding process_query process_questions process_sections copy_questions label_header lookup
    write_record read_header write_header answer_header get_qr word_at get_opcode read_question
    equal answer_at add_label_for_compression set_counts rtype initial_rdlength set_aa set_ra set_qr
    set_tc
process_query-query = refl

process_query-Answers_example :
    (h : MessageHeader) × (read_header query (length query) ≡ ok h) × Answers h reply_to_query
process_query-Answers_example =
    process_query-Answers any_text little equal zones query (length query) (omega arith)
      process_query-query

process_query-IsShort_example :
    IsShort (process_query any_text little equal zones query (length query))
process_query-IsShort_example =
    process_query-IsShort any_text little equal zones query (length query)

abbrev header : MessageHeader
header = record { id = 4660; flags = 256; qdcount = 1; ancount = 0; nscount = 0; arcount = 0 }

abbrev counts : Counts
counts = record { questions = 1; answers = 2; ns = 3; opt = 4 }

read_header-write_header_example : read_header (write_header header query) 21 ≡ ok header
read_header-write_header_example =
    read_header-write_header header query 21
      (record {
        id = omega arith;
        flags = omega arith;
        qdcount = omega arith;
        ancount = omega arith;
        nscount = omega arith;
        arcount = omega arith;
      })
      (omega arith)

answer_header_fields_example :
    let r = answer_header true false counts header in
    (get_qr r ≡ true)
    × (get_opcode r ≡ get_opcode header)
    × (get_aa r ≡ false)
    × (get_tc r ≡ true)
    × (get_rd r ≡ get_rd header)
    × (get_ra r ≡ false)
    × (get_rcode r ≡ get_rcode header)
answer_header_fields_example = answer_header_fields true false counts header (omega arith)

create_error_reply_fields_example :
    let r = error_header name_error header in
    (read_header (create_error_reply name_error header query) header_size ≡ ok r)
    × (length (create_error_reply name_error header query) ≡ header_size)
    × (r.id ≡ header.id)
    × (get_qr r ≡ true)
    × (get_rcode r ≡ rcode_value name_error)
    × (get_opcode r ≡ get_opcode header)
    × (get_rd r ≡ get_rd header)
    × (r.qdcount + r.ancount + r.nscount + r.arcount ≡ 0)
create_error_reply_fields_example =
    create_error_reply_fields name_error header query (omega arith) (omega arith)

-- A buffer that holds the name "a" only.
abbrev name_a : Bytes
name_a = 1 ∷ b'a' ∷ 0 ∷ []

abbrev label_a : Label
label_a = record { pos = 1; len = 1 }

abbrev cursor_a : Cursor
cursor_a = record {
  p = 2;
  traversing = false;
  names = label_a ∷ [];
  known = label_a ∷ [];
  size = 2;
  buffer_size = 3;
}

label_header-name_a : label_header any_text little name_a 0 3 [] ≡ ok cursor_a
unfolding label_header
label_header-name_a = refl

label_header-Accepted_example : Accepted name_a 0 3 cursor_a
label_header-Accepted_example =
    label_header-Accepted name_a 0 3 any_text little (omega arith) [] tt label_header-name_a

-- A pointer to itself.
label_header_terminates_example :
    label_header any_text big (192 ∷ 0 ∷ []) 0 2 (record { pos = 0; len = 0 } ∷ [])
    ≢ err out_of_fuel
label_header_terminates_example =
    label_header_terminates any_text big (192 ∷ 0 ∷ []) 0 2 (record { pos = 0; len = 0 } ∷ [])

label_header-known_example :
    LikeCursor name_a cursor_a (label_header any_text little name_a 0 3 (label_a ∷ []))
label_header-known_example =
    label_header-known any_text little name_a 0 3 (label_a ∷ []) ((omega arith, refl), tt)
      label_header-name_a

pointer_value_orders_at_input :
    (pointer_value big 192 12 ≡ pointer_target 192 12)
    × ((pointer_value little 192 12 ≡ pointer_target 192 12) ↔ ◌≡◌ {A = ℕ} 192 12)
pointer_value_orders_at_input =
    pointer_value_orders 192 12 (omega arith) (omega arith) (omega arith)

-- A second question that points to the name of the first, "w.n".
abbrev pointing : Bytes
pointing = query ++ 192 ∷ 12 ∷ 0 ∷ 1 ∷ 0 ∷ 1 ∷ []

first_name_pointer_refused_example :
    label_header any_text little pointing 21 6
      (record { pos = 13; len = 1 } ∷ record { pos = 15; len = 1 } ∷ [])
    ≡ err illegal_pointer
first_name_pointer_refused_example =
    first_name_pointer_refused any_text little pointing 21 6
      (record { pos = 13; len = 1 } ∷ record { pos = 15; len = 1 } ∷ []) (omega arith) refl refl
      (omega arith)

abbrev label_w : Label
label_w = record { pos = 13; len = 1 }

abbrev label_n : Label
label_n = record { pos = 15; len = 1 }

-- A query that counts two questions, the first of which is `query`'s.
abbrev first_question : Question
first_question = record {
  labels = label_w ∷ label_n ∷ [];
  buffer_size = 5;
  qtype = 1;
  qclass = 1;
  offset = 0;
}

abbrev empty_header : Bytes
empty_header = 0 ∷ 0 ∷ 0 ∷ 0 ∷ 0 ∷ 0 ∷ 0 ∷ 0 ∷ 0 ∷ 0 ∷ 0 ∷ 0 ∷ []

abbrev copied_twice : Copied
copied_twice = record {
  known = label_w ∷ label_n ∷ label_w ∷ label_n ∷ [];
  reply = empty_header ++ repeated 2 (take 9 (drop 12 query));
  questions = record first_question { offset = 12 } ∷ record first_question { offset = 21 } ∷ [];
}

read_question-pointing :
    read_question any_text little pointing header_size (27 - header_size) [] 0
    ≡ ok (first_question, label_w ∷ label_n ∷ [])
unfolding read_question label_header word_at
read_question-pointing = refl

copy_questions-pointing :
    copy_questions any_text little pointing 2 27 empty_header ≡ ok copied_twice
unfolding copy_questions read_question label_header word_at
copy_questions-pointing = refl

copy_questions_repeat_first_example :
    (copied_twice.reply
      ≡ empty_header
        ++ repeated 2 (take (question_size first_question) (drop header_size pointing)))
    × All (SameQuestion first_question) copied_twice.questions
    × (length copied_twice.questions ≡ 2)
copy_questions_repeat_first_example =
    copy_questions_repeat_first any_text little pointing 2 27 0 empty_header first_question
      (label_w ∷ label_n ∷ []) (omega arith) read_question-pointing copy_questions-pointing

Decodes-name_a : Decodes name_a 3 0 ((b'a' ∷ []) ∷ [])
Decodes-name_a = at_label {len = 1} refl (omega arith) (omega arith) refl (at_root refl)

points_a : PointsAtNames name_a (0xC000 ∷ [])
points_a = ((((b'a' ∷ []) ∷ []), Decodes-name_a), tt)

-- "b.a" behind "a".
append_name-Decodes_example :
    (more : Bytes) × (append_name name_a (0xC000 ∷ []) ((b'b' ∷ []) ∷ (b'a' ∷ []) ∷ [])
      ≡ ok (name_a ++ more))
    × Decodes
        (name_a ++ more)
        (length (name_a ++ more))
        (length name_a)
        ((b'b' ∷ []) ∷ (b'a' ∷ []) ∷ [])
append_name-Decodes_example =
    append_name-Decodes name_a (0xC000 ∷ []) ((b'b' ∷ []) ∷ (b'a' ∷ []) ∷ []) (omega arith) points_a
      ((omega arith, omega arith), ((omega arith, omega arith), tt))

abbrev writer_a : Writer
writer_a = record { buffer = name_a; points = 0xC000 ∷ [] }

fragments_ba :
    to_fragments (qualified (b'b' ∷ []) ((b'a' ∷ []) ∷ [])) ≡ (b'b' ∷ []) ∷ (b'a' ∷ []) ∷ []
unfolding to_fragments qualified
fragments_ba = refl

-- The same, relative to the zone "a".
write_domain_name-IsSound_example :
    (w : Writer) × (write_domain_name writer_a (b'b' ∷ []) ((b'a' ∷ []) ∷ []) ≡ ok w)
    × IsSound w
    × Decodes w.buffer
        (length w.buffer)
        (length name_a)
        (to_fragments (qualified (b'b' ∷ []) ((b'a' ∷ []) ∷ [])))
write_domain_name-IsSound_example =
    write_domain_name-IsSound writer_a (b'b' ∷ []) ((b'a' ∷ []) ∷ []) (omega arith) points_a
      (rw fragments_ba ((omega arith, omega arith), ((omega arith, omega arith), tt)))

reverse_compare_total_at_input : IsOk (reverse_compare 3 name_a ((b'a' ∷ []) ∷ []) unmatched 0xC000)
reverse_compare_total_at_input =
    reverse_compare_total name_a ((b'a' ∷ []) ∷ []) (omega arith) 3 0xC000 Decodes-name_a

abbrev address : Answer
address = record { name = []; name_ptr = 0xC000; rdata = a (10 ∷ 0 ∷ 0 ∷ 1 ∷ []) }

abbrev written_address : Written
written_address = record {
  writer = record {
    buffer = 1 ∷ b'a' ∷ 0 ∷ 192 ∷ 0 ∷ 0 ∷ 1 ∷ 0 ∷ 1 ∷ 0 ∷ 0 ∷ 1 ∷ 44 ∷ 0 ∷ 4 ∷ 10 ∷ 0 ∷ 0 ∷ 1 ∷ [];
    points = 0xC000 ∷ [];
  };
  size = 16;
}

write_record-address : write_record writer_a address ≡ ok written_address
unfolding write_record add_label_for_compression rtype initial_rdlength
write_record-address = refl

write_record_layout_example :
    (owner : Bytes) × IsOwner name_a address owner
    × (bytes : Bytes) × (written_address.writer.buffer
        ≡ name_a ++ (owner ++ (fixed_bytes (rtype address.rdata) (length bytes) ++ bytes)))
    × (length name_a + written_address.size ≡ length written_address.writer.buffer)
    × IsData
        (name_a ++ (owner ++ fixed_bytes (rtype address.rdata) (initial_rdlength address.rdata)))
        address.rdata
        bytes
write_record_layout_example =
    write_record_layout writer_a address refl write_record-address (omega arith)

revert-write_record_example : revert (length name_a) written_address.writer.buffer ≡ name_a
revert-write_record_example =
    revert-write_record writer_a address refl write_record-address (omega arith)

scan_level-choose_from_at_input :
    scan_level equal zones (b'w' ∷ []) none (0 ∷ 1 ∷ [])
    ≡ choose_from equal zones (b'w' ∷ []) none (0 ∷ 1 ∷ [])
scan_level-choose_from_at_input = scan_level-choose_from equal zones (b'w' ∷ []) none (0 ∷ 1 ∷ [])

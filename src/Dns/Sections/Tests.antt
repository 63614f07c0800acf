-- ===== src/Dns/Sections/Tests.antt =====
-- A zone two levels below the one with an SOA record.
use v_ubercool.Base.{ℕ, ◌≡◌, refl, true, none, some, [], ◌∷◌, Bytes, codes, equal}
use v_ubercool.Dns.Outcome.{endless_loop, err}
use v_ubercool.Dns.Question.{Question}
use v_ubercool.Dns.Zones.{Zone, ZoneMgr, lookup}
use v_ubercool.Dns.Sections.{Session, failed, soa_zone_loop, process_question}
use v_ubercool.Dns.Sections.Ancestry.{IsOrphan, process_question-IsOrphan}

abbrev root : Zone
root = record {
  parent = none;
  label = codes "r";
  a = [];
  ns = [];
  mx = [];
  cname = [];
  soa =
      some (record {
        rname = codes "me";
        serial = 1;
        refresh = 2;
        retry = 3;
        expire = 4;
        minimum = 5;
      });
  children = 1 ∷ [];
  authorative = true;
}

abbrev inner : Zone
inner = record root { parent = some 0; label = codes "n"; soa = none; children = 2 ∷ [] }

abbrev lowest : Zone
lowest = record inner { parent = some 1; label = codes "w"; children = [] }

abbrev zones : ZoneMgr
zones = record { objects = root ∷ inner ∷ lowest ∷ []; zones = 0 ∷ [] }

-- The name w.n.r, at the head of the buffer.
abbrev octets : Bytes
octets = 1 ∷ b'w' ∷ 1 ∷ b'n' ∷ 1 ∷ b'r' ∷ 0 ∷ []

abbrev question : Question
question = record {
  labels =
      record { pos = 1; len = 1 } ∷ record { pos = 3; len = 1 } ∷ record { pos = 5; len = 1 } ∷ [];
  buffer_size = 7;
  qtype = 1;
  qclass = 1;
  offset = 12;
}

abbrev session : Session
session = record {
  writer = record { buffer = []; points = [] };
  authorative = true;
  counts = record { questions = 1; answers = 0; ns = 0; opt = 0 };
  authorative_zones = [];
  ns_zones = [];
}

lowest-IsOrphan : IsOrphan zones 2
lowest-IsOrphan = record {
  zone = lowest;
  above = inner;
  parent = 1;
  at_zone = refl;
  no_soa = refl;
  has_parent = refl;
  at_parent = refl;
  parent_no_soa = refl;
}

found : (lookup equal zones (codes "w" ∷ codes "n" ∷ codes "r" ∷ [])).zone ≡ some 2
unfolding lookup equal
found = refl

process_question-IsOrphan_example :
    (process_question equal zones octets question session ≡ failed endless_loop)
    × ((n : ℕ) → soa_zone_loop n zones (some 1) (some 2) ≡ err endless_loop)
unfolding lowest-IsOrphan
process_question-IsOrphan_example =
    process_question-IsOrphan zones equal octets question session 2 lowest-IsOrphan found

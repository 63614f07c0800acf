-- ===== src/Dns/Sections.antt =====
-- The second half of `ProcessQuestions` in src/dnsd/DnsDaemon.cpp: the questions are answered, and
-- the name servers of their zones and the addresses of these are added, until the reply is full.
-- The exception `Truncated` leaves the variables as they are, so it carries them here.
pub mod Size
pub mod Ancestry
mod Tests
use v_ubercool.Base.{
  ℕ, zero, suc, ◌+◌, ◌%◌, ◌^◌, Bool, true, false, not, ◌&&◌, ◌||◌, Option, none, some, List, [],
  ◌∷◌, ◌++◌, map, Bytes, length, ltb, ◌==◌, if◌then◌else◌,
}
use v_ubercool.Dns.Outcome.{
  Error, unknown_domain, unknown_sub_domain, no_soa_record, out_of_bounds, endless_loop, Outcome,
  ok, err,
}
use v_ubercool.Dns.Labels.{label_text}
use v_ubercool.Dns.Question.{Question, max_reply_buffer}
use v_ubercool.Dns.Reply.{Counts}
use v_ubercool.Dns.Names.{Writer, to_fragments, ends_with_dot}
use v_ubercool.Dns.Records.{
  Soa, Rdata, a, cname, mx, ns, soa, Answer, answer_named, answer_at, Written, write_record, revert,
}
use v_ubercool.Dns.Zones.{
  Server, Exchange, SoaData, Zone, ZoneMgr, zone_at, zone_labels, domain_name, server_fqdn, Found,
  lookup,
}

-- The variables of `ProcessQuestions` that the second half changes.
pub record Session : Type 0 where
  pub writer : Writer
  pub authorative : Bool
  pub counts : Counts
  pub authorative_zones : List ℕ
  pub ns_zones : List ℕ

-- A step has been made, or it has thrown `Truncated`, or another exception, which is not caught.
pub data Progress : Type 0 where
  went cut : Session → Progress
  failed : Error → Progress

-- The counter that a call of `Store` is given.
pub data Section : Type 0 where
  answer_section authority additional : Section

infixl 5 ◌>=>◌
abbrev pub ◌>=>◌ : Progress → (Session → Progress) → Progress
went s >=> f = f s
cut s >=> f = cut s
failed e >=> f = failed e

-- A loop whose body may throw.
pub each {ℓ} : {A : Type ℓ} → (A → Session → Progress) → List A → Session → Progress
each f [] s = went s
each f (x ∷ xs) s = f x s >=> each f xs

pub count : Section → Counts → Counts
count answer_section n = record n { answers = (n.answers + 1) % 2 ^ 16 }
count authority n = record n { ns = (n.ns + 1) % 2 ^ 16 }
count additional n = record n { opt = (n.opt + 1) % 2 ^ 16 }

-- `Store` behind `Write`: a record that does not fit is taken back.
keep_record : Section → Session → Written → Progress
unfolding count
keep_record section s r =
    if ltb max_reply_buffer (length r.writer.buffer)
    then cut (record s {
      writer = record {
        buffer = revert (length s.writer.buffer) r.writer.buffer;
        points = r.writer.points;
      };
    })
    else went (record s { writer = r.writer; counts = count section s.counts })

pub store : Section → Answer → Session → Progress
unfolding keep_record
store section ans s = elim (write_record s.writer ans) [
  | err e ↦ failed e
  | ok r ↦ keep_record section s r
]

-- `AddZone` of a zone to a list.
pub has_zone : ℕ → List ℕ → Bool
has_zone z [] = false
has_zone z (y ∷ ys) = z == y || has_zone z ys

pub add_zone : List ℕ → Option ℕ → List ℕ
unfolding has_zone
add_zone zones none = zones
add_zone zones (some z) = if has_zone z zones then zones else zones ++ z ∷ []

add_authorative : Option ℕ → Session → Session
add_authorative z s = record s { authorative_zones = add_zone s.authorative_zones z }

add_ns : Option ℕ → Session → Session
add_ns z s = record s { ns_zones = add_zone s.ns_zones z }

-- The loop of `GetSoaZone`, of so many rounds: every round that goes on steps to `zone->parent`, the
-- parent of the zone that the call was given.
pub soa_zone_loop : ℕ → ZoneMgr → Option ℕ → Option ℕ → Outcome (Option ℕ)
soa_zone_loop zero m parent z = err endless_loop
soa_zone_loop (suc rounds) m parent none = ok none
soa_zone_loop (suc rounds) m parent (some z) =
    let rest = soa_zone_loop rounds m parent parent in
    elim (zone_at m z) [
      | none ↦ err out_of_bounds
      | some zone ↦ elim zone.soa [ some d ↦ ok (some z) | none ↦ rest ]
    ]

-- `GetSoaZone`. A loop that goes on for more than two rounds does not end.
pub get_soa_zone : ZoneMgr → ℕ → Zone → Outcome (Option ℕ)
unfolding soa_zone_loop
get_soa_zone m z zone = soa_zone_loop 2 m zone.parent (some z)

first_server : List Server → Option Bytes
first_server [] = none
first_server (s ∷ ss) = some s.fqdn

-- What `RdataSoa` is given.
soa_of : ZoneMgr → ℕ → Zone → SoaData → Soa
unfolding first_server
soa_of m z zone d = record {
  mname = first_server zone.ns;
  rname = d.rname;
  serial = d.serial;
  refresh = d.refresh;
  retry = d.retry;
  expire = d.expire;
  minimum = d.minimum;
  zone = zone_labels m z;
}

-- The zone that an index stands for; all that the zones hold are those of the store.
with_zone : Option Zone → (Zone → Progress) → Progress
with_zone none f = failed out_of_bounds
with_zone (some zone) f = f zone

-- The name that `StoreCname` stores and returns.
pub full_cname : ZoneMgr → Zone → Bytes
full_cname m zone =
    if ends_with_dot zone.cname
    then zone.cname
    else elim zone.parent [ none ↦ zone.cname | some p ↦ zone.cname ++ (b'.' ∷ domain_name m p) ]

-- The addresses of a zone under a name, in any section.
store_named : Section → Bytes → List Bytes → Session → Progress
unfolding each store
store_named section name ips = each (λ ip. store section (answer_named name (a ip))) ips

is_empty : Bytes → Bool
is_empty [] = true
is_empty (c ∷ cs) = false

module _ (iequals : Bytes → Bytes → Bool) (m : ZoneMgr) where
  -- `zone_mgr_.Lookup(ToFraments(name))`.
  lookup_name : Bytes → Option ℕ
  lookup_name name = (lookup iequals m (to_fragments name)).zone

  store_cname : Zone → Question → Session → Progress
  unfolding full_cname
  store_cname zone q = store answer_section (answer_at q.offset (cname (full_cname m zone)))

  -- The addresses of the zone that a CNAME record refers to.
  store_cname_addresses : Bytes → Option Zone → Session → Progress
  store_cname_addresses name none s = went s
  store_cname_addresses name (some zone) s = store_named answer_section name zone.a s

  zone_of : Option ℕ → Option Zone
  zone_of none = none
  zone_of (some z) = zone_at m z

  -- The branch for the types A and ANY.
  answer_address : Zone → Question → Session → Progress
  unfolding is_empty lookup_name zone_of store_cname_addresses
  answer_address zone q s =
      if not (is_empty zone.cname)
      then (store_cname zone q s >=> λ s1.
          if q.qtype == 1
          then store_cname_addresses (full_cname m zone) (zone_of (lookup_name (full_cname m zone)))
              s1
          else went s1)
      else each (λ ip. store answer_section (answer_at q.offset (a ip))) zone.a s

  -- The branch for SOA, at the SOA zone.
  answer_soa : Option ℕ → Question → Session → Progress
  unfolding with_zone soa_of add_authorative
  answer_soa none q s = failed no_soa_record
  answer_soa (some z) q s = with_zone (zone_at m z) (λ zone. elim zone.soa [
    | none ↦ failed no_soa_record
    | some d ↦ store answer_section (answer_at q.offset (soa (soa_of m z zone d))) s >=> λ s1.
        went (add_authorative (some z) s1)
  ])

  -- One round of the loop of the branch for MX.
  answer_exchange : Question → Exchange → Session → Progress
  unfolding add_ns lookup_name
  answer_exchange q x s =
      let name = server_fqdn m x.server in
      store answer_section (answer_at q.offset (mx x.priority name)) s >=> λ s1.
      went (add_ns (lookup_name name) s1)

  answer_type : Zone → Option ℕ → Question → Session → Progress
  unfolding answer_address answer_soa answer_exchange
  answer_type zone soa_zone q s =
      if q.qtype == 1 || q.qtype == 255
      then answer_address zone q s
      else if q.qtype == 5
      then (if not (is_empty zone.cname) then store_cname zone q s else went s)
      else if q.qtype == 6
      then answer_soa soa_zone q s
      else if q.qtype == 2
      then went (add_authorative soa_zone s)
      else if q.qtype == 15
      then each (answer_exchange q) zone.mx s
      else went s

  is_authorative_at : Option ℕ → Bool
  unfolding zone_of
  is_authorative_at z = elim (zone_of z) [ none ↦ false | some zone ↦ zone.authorative ]

  -- `GetSoaZone` has given a zone, or none.
  answer_below : Zone → Question → Session → Option ℕ → Progress
  unfolding is_authorative_at answer_type add_authorative
  answer_below zone q s soa_zone =
      let s1 : Session = record s { authorative = s.authorative && is_authorative_at soa_zone } in
      answer_type zone soa_zone q s1 >=> λ s2.
      if q.qtype == 255 then went (add_authorative soa_zone s2) else went s2

  pub answer_zone : ℕ → Question → Session → Zone → Progress
  unfolding answer_below get_soa_zone
  answer_zone z q s zone = elim (get_soa_zone m z zone) [
    | err e ↦ failed e
    | ok soa_zone ↦ answer_below zone q s soa_zone
  ]

  -- `ProcessQuestion`.
  pub process_question : Bytes → Question → Session → Progress
  unfolding answer_zone with_zone
  process_question mem q s =
      let found = lookup iequals m (map (label_text mem) q.labels) in
      elim found.zone [
        | none ↦ failed (if found.authorative then unknown_sub_domain else unknown_domain)
        | some z ↦ with_zone (zone_at m z) (answer_zone z q s)
      ]

  -- One round of the loop of `ProcessNsAuthZone`.
  auth_server : ℕ → Server → Session → Progress
  unfolding add_ns lookup_name
  auth_server z server s =
      let name = server_fqdn m server in
      store authority (answer_named (domain_name m z) (ns name)) s >=> λ s1.
      went (add_ns (lookup_name name) s1)

  pub process_ns_auth_zone : ℕ → Session → Progress
  unfolding auth_server with_zone
  process_ns_auth_zone z s = with_zone (zone_at m z) (λ zone. each (auth_server z) zone.ns s)

  pub process_ns_zone : ℕ → Session → Progress
  unfolding store_named with_zone
  process_ns_zone z s =
      with_zone (zone_at m z) (λ zone. store_named additional (domain_name m z) zone.a s)

  -- The three loops under the `try`.
  unfoldable pub process_sections : Bytes → List Question → Session → Progress
  unfolding add_authorative add_ns add_zone answer_address answer_exchange answer_soa answer_type
      answer_below answer_zone auth_server count each first_server full_cname get_soa_zone has_zone
      is_authorative_at is_empty keep_record lookup_name process_ns_auth_zone process_ns_zone
      process_question soa_of soa_zone_loop store store_cname store_cname_addresses store_named
      with_zone zone_of
  process_sections mem questions s =
      each (process_question mem) questions s
      >=> (λ s1. each process_ns_auth_zone s1.authorative_zones s1)
      >=> (λ s2. each process_ns_zone s2.ns_zones s2)

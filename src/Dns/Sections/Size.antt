-- ===== src/Dns/Sections/Size.antt =====
-- The size of the reply while `ProcessQuestions` (src/dnsd/DnsDaemon.cpp) fills it.
use v_ubercool.Base.{
  ℕ, ◌≤◌, inl, inr, Bool, true, false, Option, none, some, List, [], ◌∷◌, map, Bytes, length,
  length-take, ltb, ◌==◌, not, ◌||◌, arith, if◌then◌else◌, if_intro, Option-cases,
}
use v_ubercool.Dns.Outcome.{Error, Outcome-cases}
use v_ubercool.Dns.Labels.{label_text}
use v_ubercool.Dns.Question.{Question, max_reply_buffer}
use v_ubercool.Dns.Records.{Answer, Written, write_record, revert}
use v_ubercool.Dns.Zones.{Exchange, Server, Zone, ZoneMgr, zone_at, lookup}
use v_ubercool.Dns.Sections.{
  Session, Progress, went, cut, failed, Section, ◌>=>◌, each, keep_record, store, store_named,
  with_zone, is_empty, store_cname, store_cname_addresses, answer_address, answer_soa,
  answer_exchange, answer_type, answer_below, answer_zone, get_soa_zone, process_question,
  answer_section, additional, auth_server, process_ns_auth_zone, process_ns_zone, process_sections,
  add_authorative, add_ns,
}

abbrev pub Fits : Session → Type 0
Fits s = length s.writer.buffer ≤ max_reply_buffer

-- The reply fits wherever the step stops.
unfoldable pub StaysFit : Progress → Type 0
StaysFit (went s) = Fits s
StaysFit (cut s) = Fits s
StaysFit (failed e) = Unit

went-StaysFit : (s : Session) → Fits s → StaysFit (went s)
unfolding StaysFit
went-StaysFit s h = h

cut-StaysFit : (s : Session) → Fits s → StaysFit (cut s)
unfolding StaysFit
cut-StaysFit s h = h

failed-StaysFit : (e : Error) → StaysFit (failed e)
unfolding StaysFit
failed-StaysFit e = tt

-- A step that takes a reply that fits to one that fits.
abbrev IsFit : (Session → Progress) → Type 0
IsFit f = (s : Session) → Fits s → StaysFit (f s)

if-StaysFit : (b : Bool) (x y : Progress) → StaysFit x → StaysFit y → StaysFit (if b then x else y)
if-StaysFit true x y h k = h
if-StaysFit false x y h k = k

>=>-StaysFit : (p : Progress) (f : Session → Progress) → StaysFit p → IsFit f → StaysFit (p >=> f)
unfolding StaysFit
>=>-StaysFit (went s) f h g = g s h
>=>-StaysFit (cut s) f h g = h
>=>-StaysFit (failed e) f h g = tt

each-IsFit {ℓ} :
    {A : Type ℓ} (f : A → Session → Progress) (xs : List A)
    → ((x : A) → IsFit (f x))
    → IsFit (each f xs)
unfolding each
each-IsFit f [] h s fits = went-StaysFit _ fits
each-IsFit f (x ∷ xs) h s fits = >=>-StaysFit (f x s) (each f xs) (h x s fits) (each-IsFit f xs h)

keep_record-StaysFit :
    (section : Section) (s : Session) (r : Written) → Fits s → StaysFit (keep_record section s r)
unfolding keep_record revert
keep_record-StaysFit section s r fits =
    if_intro StaysFit (ltb max_reply_buffer (length r.writer.buffer)) _ _
      (λ _. cut-StaysFit _ (omega (arith, length-take (length s.writer.buffer) r.writer.buffer)))
      (λ e. went-StaysFit _ (ground arith))

store-IsFit : (section : Section) (ans : Answer) → IsFit (store section ans)
unfolding store
store-IsFit section ans s fits = elim (Outcome-cases (write_record s.writer ans)) [
  | inl (r, e) ↦ rw (e, store) (keep_record-StaysFit section s r fits)
  | inr (x, e) ↦ rw (e, store) (failed-StaysFit _)
]

store_named-IsFit :
    (section : Section) (name : Bytes) (ips : List Bytes) → IsFit (store_named section name ips)
unfolding store_named
store_named-IsFit section name ips = each-IsFit _ ips (λ ip. store-IsFit section _)

with_zone-StaysFit :
    (o : Option Zone) (f : Zone → Progress)
    → ((z : Zone) → StaysFit (f z))
    → StaysFit (with_zone o f)
unfolding with_zone
with_zone-StaysFit none f h = failed-StaysFit _
with_zone-StaysFit (some z) f h = h z

module _ (iequals : Bytes → Bytes → Bool) (m : ZoneMgr) where
  store_cname-IsFit : (zone : Zone) (q : Question) → IsFit (store_cname iequals m zone q)
  unfolding store_cname
  store_cname-IsFit zone q = store-IsFit _ _

  store_cname_addresses-IsFit :
      (name : Bytes) (o : Option Zone) → IsFit (store_cname_addresses iequals m name o)
  unfolding store_cname_addresses
  store_cname_addresses-IsFit name none s fits = went-StaysFit _ fits
  store_cname_addresses-IsFit name (some zone) s fits = store_named-IsFit _ name zone.a s fits

  answer_address-IsFit : (zone : Zone) (q : Question) → IsFit (answer_address iequals m zone q)
  unfolding answer_address
  answer_address-IsFit zone q s fits =
      if-StaysFit _ _ _
        (>=>-StaysFit _ _ (store_cname-IsFit zone q s fits) (λ s1 fits1.
          if-StaysFit _ _ _ (store_cname_addresses-IsFit _ _ s1 fits1) (went-StaysFit _ fits1)))
        (each-IsFit _ zone.a (λ ip. store-IsFit _ _) s fits)

  answer_soa-IsFit : (z : Option ℕ) (q : Question) → IsFit (answer_soa iequals m z q)
  unfolding answer_soa add_authorative
  answer_soa-IsFit none q s fits = failed-StaysFit _
  answer_soa-IsFit (some z) q s fits = with_zone-StaysFit (zone_at m z) _ (λ zone.
      elim (Option-cases zone.soa) [
        | inl e ↦ rw e (failed-StaysFit _)
        | inr (d, e) ↦ rw e (
            >=>-StaysFit _ _ (store-IsFit answer_section _ s fits)
              (λ s1 fits1. went-StaysFit _ fits1))
      ])

  answer_exchange-IsFit : (q : Question) (x : Exchange) → IsFit (answer_exchange iequals m q x)
  unfolding answer_exchange add_ns
  answer_exchange-IsFit q x s fits =
      >=>-StaysFit _ _ (store-IsFit _ _ s fits) (λ s1 fits1. went-StaysFit _ fits1)

  answer_type-IsFit :
      (zone : Zone) (z : Option ℕ) (q : Question) → IsFit (answer_type iequals m zone z q)
  unfolding answer_type add_authorative
  answer_type-IsFit zone z q s fits =
      if-StaysFit (q.qtype == 1 || q.qtype == 255) _ _ (answer_address-IsFit zone q s fits) (
        if-StaysFit (q.qtype == 5) _ _
          (if-StaysFit (not (is_empty zone.cname)) _ _ (store_cname-IsFit zone q s fits)
            (went-StaysFit s fits))
          (if-StaysFit (q.qtype == 6) _ _ (answer_soa-IsFit z q s fits) (
            if-StaysFit (q.qtype == 2) _ _ (went-StaysFit _ fits) (
              if-StaysFit (q.qtype == 15) _ _
                (each-IsFit _ zone.mx (answer_exchange-IsFit q) s fits) (went-StaysFit s fits)))))

  answer_below-StaysFit :
      (q : Question) (zone : Zone) (soa_zone : Option ℕ)
      → (s : Session) → Fits s
      → StaysFit (answer_below iequals m zone q s soa_zone)
  unfolding answer_below add_authorative
  answer_below-StaysFit q zone soa_zone s fits =
      >=>-StaysFit _ _ (answer_type-IsFit zone _ q _ fits)
        (λ s2 fits2. if-StaysFit _ _ _ (went-StaysFit _ fits2) (went-StaysFit _ fits2))

  answer_zone-StaysFit :
      (z : ℕ) (q : Question) (zone : Zone)
      → (s : Session) → Fits s
      → StaysFit (answer_zone iequals m z q s zone)
  unfolding answer_zone
  answer_zone-StaysFit z q zone s fits = elim (Outcome-cases (get_soa_zone m z zone)) [
    | inl (soa_zone, e) ↦ rw (e, answer_zone) (answer_below-StaysFit q zone soa_zone s fits)
    | inr (x, e) ↦ rw (e, answer_zone) (failed-StaysFit _)
  ]

  process_question-IsFit : (mem : Bytes) (q : Question) → IsFit (process_question iequals m mem q)
  unfolding process_question
  process_question-IsFit mem q s fits =
      let f = lookup iequals m (map (label_text mem) q.labels) in
      elim (Option-cases f.zone) [
        | inl e ↦ rw (e, process_question) (failed-StaysFit _)
        | inr (z, e) ↦
            rw (e, process_question)
              (with_zone-StaysFit (zone_at m z) _ (λ zone. answer_zone-StaysFit z q zone s fits))
      ]

  auth_server-IsFit : (z : ℕ) (server : Server) → IsFit (auth_server iequals m z server)
  unfolding auth_server add_ns
  auth_server-IsFit z server s fits =
      >=>-StaysFit _ _ (store-IsFit _ _ s fits) (λ s1 fits1. went-StaysFit _ fits1)

  -- Answering the questions of a reply of at most 512 octets ends with one, complete or truncated,
  -- or with an exception.
  pub process_sections-StaysFit :
      (mem : Bytes) (questions : List Question)
      → (s : Session) → Fits s
      → StaysFit (process_sections iequals m mem questions s)
  unfolding process_sections process_ns_auth_zone process_ns_zone
  process_sections-StaysFit mem questions s fits =
      >=>-StaysFit _ _
        (>=>-StaysFit _ _ (each-IsFit _ questions (process_question-IsFit mem) s fits) (λ s1.
          each-IsFit _ s1.authorative_zones
            (λ z s2 fits2.
              with_zone-StaysFit (zone_at m z) _
                (λ zone. each-IsFit _ zone.ns (auth_server-IsFit z) s2 fits2))
            s1))
        (λ s1.
          each-IsFit _ s1.ns_zones
            (λ z s2 fits2.
              with_zone-StaysFit (zone_at m z) _
                (λ zone. store_named-IsFit additional _ zone.a s2 fits2))
            s1)

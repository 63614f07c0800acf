-- ===== src/Dns/Sections/Ancestry.antt =====
-- The loop of `GetSoaZone` in src/dnsd/DnsDaemon.cpp, which looks no further than the parent.
use v_ubercool.Base.{
  ℕ, zero, suc, ◌≡◌, refl, Bool, Option, none, some, ◌⊎◌, inl, inr, Option-cases, Bytes, map,
}
use v_ubercool.Dns.Outcome.{endless_loop, err}
use v_ubercool.Dns.Labels.{label_text}
use v_ubercool.Dns.Question.{Question}
use v_ubercool.Dns.Zones.{Zone, ZoneMgr, zone_at, lookup}
use v_ubercool.Dns.Sections.{
  Session, failed, soa_zone_loop, get_soa_zone, answer_zone, with_zone, process_question,
}

-- A zone without an SOA record, whose parent has none.
pub record IsOrphan (m : ZoneMgr) (z : ℕ) : Type 0 where
  pub zone : Zone
  pub above : Zone
  pub parent : ℕ
  pub at_zone : zone_at m z ≡ some zone
  pub no_soa : zone.soa ≡ none
  pub has_parent : zone.parent ≡ some parent
  pub at_parent : zone_at m parent ≡ some above
  pub parent_no_soa : above.soa ≡ none

module _ (m : ZoneMgr) where
  -- At the parent, the loop stays there.
  soa_zone_loop_stays :
      (n p : ℕ) (above : Zone)
      → zone_at m p ≡ some above
      → above.soa ≡ none
      → soa_zone_loop n m (some p) (some p) ≡ err endless_loop
  unfolding soa_zone_loop
  soa_zone_loop_stays zero p above e h = refl
  soa_zone_loop_stays (suc n) p above e h =
      rw (e, soa_zone_loop) (rw (h, soa_zone_loop) (soa_zone_loop_stays n p above e h))

  -- Two rounds are enough: a loop that has not ended in them does not end.
  soa_zone_loop_enough :
      (n : ℕ) (parent : Option ℕ) (z : ℕ)
      → soa_zone_loop (suc (suc n)) m parent (some z) ≡ soa_zone_loop 2 m parent (some z)
  unfolding soa_zone_loop
  soa_zone_loop_enough n none z = refl
  soa_zone_loop_enough n (some p) z = elim (Option-cases (zone_at m z)) [
    | inl e ↦ rw (e, soa_zone_loop) refl
    | inr (zone, e) ↦ elim (Option-cases zone.soa) [
      | inr (d, h) ↦ rw (e, soa_zone_loop) (rw (h, soa_zone_loop) refl)
      | inl h ↦
          rw (e, soa_zone_loop) (rw (h, soa_zone_loop) (at_parent (Option-cases (zone_at m p))))
    ]
  ]
    where
      at_parent :
          ((zone_at m p ≡ none) ⊎ ((above : Zone) × (zone_at m p ≡ some above)))
          → soa_zone_loop (suc n) m (some p) (some p) ≡ soa_zone_loop 1 m (some p) (some p)
      at_parent (inl e) = rw (e, soa_zone_loop) refl
      at_parent (inr (above, e)) = elim (Option-cases above.soa) [
        | inr (d, h) ↦ rw (e, soa_zone_loop) (rw (h, soa_zone_loop) refl)
        | inl h ↦ rw (e, soa_zone_loop) (rw (h, soa_zone_loop) (soa_zone_loop_stays n p above e h))
      ]

  soa_zone_loop-IsOrphan :
      (n z : ℕ) (o : IsOrphan m z) → soa_zone_loop n m o.zone.parent (some z) ≡ err endless_loop
  unfolding soa_zone_loop
  soa_zone_loop-IsOrphan zero z o = refl
  soa_zone_loop-IsOrphan (suc n) z o = rw o.has_parent (
      rw (o.at_zone, soa_zone_loop)
        (rw (o.no_soa, soa_zone_loop)
          (soa_zone_loop_stays n o.parent o.above o.at_parent o.parent_no_soa)))

  module _ (iequals : Bytes → Bytes → Bool) where
    -- A question whose name is that of a zone without an SOA record, and with a parent without one, is
    -- never answered, whatever its type and whatever the zones above the parent have: the loop has
    -- not ended behind any number of rounds.
    pub process_question-IsOrphan :
        (mem : Bytes) (q : Question) (s : Session) (z : ℕ) (o : IsOrphan m z)
        → (lookup iequals m (map (label_text mem) q.labels)).zone ≡ some z
        → (process_question iequals m mem q s ≡ failed endless_loop)
          × ((n : ℕ) → soa_zone_loop n m o.zone.parent (some z) ≡ err endless_loop)
    unfolding process_question answer_zone get_soa_zone with_zone
    process_question-IsOrphan mem q s z o found =
        let loops = soa_zone_loop-IsOrphan 2 z o in
        (
          rw (found, process_question)
              (rw (o.at_zone, process_question) (rw (loops, with_zone, answer_zone) refl)),
          λ n. soa_zone_loop-IsOrphan n z o,
        )

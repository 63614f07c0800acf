-- ===== src/Dns/Header/Flags.antt =====
-- The flag word of `MessageHeader`, src/dnsd/Message.h: the setters against the getters.
use v_ubercool.Base.{
  ◌+◌, ◌*◌, ◌/◌, ◌%◌, ◌<◌, ◌≡◌, Bool, arith, clear_masks, set_masks, test_masks, code_masks, ◌==◌,
  if◌then◌else◌,
}
use v_ubercool.Dns.Header.{
  MessageHeader, Rcode, no_error, rcode_value, get_qr, get_opcode, get_aa, get_tc, get_rd, get_ra,
  get_z, get_rcode, set_qr, set_tc, set_ra, set_aa, set_rcode,
}

-- The fields of a flag word by division.
pub getters :
    (h : MessageHeader)
    → h.flags < 65536
    → (get_qr h ≡ (h.flags / 32768 == 1))
      × (get_opcode h ≡ h.flags / 2048 % 16)
      × (get_aa h ≡ (h.flags / 1024 % 2 == 1))
      × (get_tc h ≡ (h.flags / 512 % 2 == 1))
      × (get_rd h ≡ (h.flags / 256 % 2 == 1))
      × (get_ra h ≡ (h.flags / 128 % 2 == 1))
      × (get_z h ≡ h.flags / 16 % 16)
      × (get_rcode h ≡ h.flags % 16)
unfolding get_qr get_opcode get_aa get_tc get_rd get_ra get_z get_rcode
getters h lt =
    ground (arith, test_masks h.flags, test_masks (h.flags / 2048), test_masks (h.flags / 16))

module _ (on : Bool) (h : MessageHeader) (lt : h.flags < 65536) where
  pub set_qr_flags : (set_qr on h).flags ≡ h.flags % 32768 + (if on then 32768 else 0)
  unfolding set_qr
  set_qr_flags = ground (arith, clear_masks h.flags, set_masks h.flags)

  pub set_tc_flags :
      (set_tc on h).flags ≡ h.flags / 1024 * 1024 + h.flags % 512 + (if on then 512 else 0)
  unfolding set_tc
  set_tc_flags = ground (arith, clear_masks h.flags, set_masks h.flags)

  pub set_ra_flags :
      (set_ra on h).flags ≡ h.flags / 256 * 256 + h.flags % 128 + (if on then 128 else 0)
  unfolding set_ra
  set_ra_flags = ground (arith, clear_masks h.flags, set_masks h.flags)

  pub set_aa_flags :
      (set_aa on h).flags ≡ h.flags / 2048 * 2048 + h.flags % 1024 + (if on then 1024 else 0)
  unfolding set_aa
  set_aa_flags = ground (arith, clear_masks h.flags, set_masks h.flags)

pub set_rcode_flags :
    (code : Rcode) (h : MessageHeader)
    → h.flags < 65536
    → (set_rcode code h).flags ≡ h.flags / 16 * 16 + rcode_value code
unfolding set_rcode rcode_value
set_rcode_flags no_error h lt = ground (arith, clear_masks h.flags, code_masks h.flags)
set_rcode_flags _ h lt = ground (arith, clear_masks h.flags, code_masks h.flags)

pub rcode_value-lt : (code : Rcode) → rcode_value code < 16
unfolding rcode_value
rcode_value-lt no_error = omega arith
rcode_value-lt _ = omega arith

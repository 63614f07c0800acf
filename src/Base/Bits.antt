-- ===== src/Base/Bits.antt =====
-- Masks on 16-bit words: `bit_and` and `bit_or` with a constant, as arithmetic.
use Prim.Native.Nat.{ℕ, zero, suc, ◌+◌, ◌*◌, ◌/◌, ◌%◌, ◌<◌, bit_and, bit_or}
use mathlib.Core.Bool.{Bool, true, ◌&&◌}
use mathlib.Core.Path.{◌≡◌, refl}
use native.Mathlib.Omega.{arith}
use v_ubercool.Base.Tests.{◌==◌}

-- A test that every number under a bound passes, by running it.
unfoldable pub passes_below : (ℕ → Bool) → ℕ → Bool
passes_below test zero = true
passes_below test (suc bound) = passes_below test bound && test bound

pub passes_below_lem :
    (test : ℕ → Bool) (bound i : ℕ) → i < bound → passes_below test bound ≡ true → test i ≡ true
unfolding passes_below
passes_below_lem test zero i less run = absurd (omega (arith, less))
passes_below_lem test (suc bound) i less run =
    let earlier = passes_below_lem test bound i in ground (arith, earlier)

-- Clearing one bit, and setting it on a word where it is clear.
clear_table :
    passes_below
      (λ x.
        bit_and x 0x7FFF == x % 32768
        && bit_and x 0xFDFF == x / 1024 * 1024 + x % 512
        && bit_and x 0xFF7F == x / 256 * 256 + x % 128
        && bit_and x 0xFBFF == x / 2048 * 2048 + x % 1024
        && bit_and x 0x87FF == x / 32768 * 32768 + x % 2048
        && bit_and x 0xFFF0 == x / 16 * 16)
      65536
    ≡ true
unfolding passes_below
clear_table = refl

set_table :
    passes_below
      (λ x.
        bit_or (x % 32768) 0x8000 == x % 32768 + 0x8000
        && bit_or (x / 1024 * 1024 + x % 512) 0x200 == x / 1024 * 1024 + x % 512 + 0x200
        && bit_or (x / 256 * 256 + x % 128) 0x80 == x / 256 * 256 + x % 128 + 0x80
        && bit_or (x / 2048 * 2048 + x % 1024) 0x400 == x / 2048 * 2048 + x % 1024 + 0x400)
      65536
    ≡ true
unfolding passes_below
set_table = refl

test_table :
    passes_below
      (λ x.
        bit_and x 0x8000 == x / 32768 * 32768
        && bit_and x 0x200 == x / 512 % 2 * 512
        && bit_and x 0x80 == x / 128 % 2 * 128
        && bit_and x 0x400 == x / 1024 % 2 * 1024
        && bit_and x 0x100 == x / 256 % 2 * 256
        && bit_and x 0xF == x % 16
        && bit_and x 0xC000 == x / 16384 * 16384
        && bit_or x 0xC000 == 49152 + x % 16384)
      65536
    ≡ true
unfolding passes_below
test_table = refl

code_table :
    passes_below
      (λ x.
        bit_or (x / 16 * 16) 0 == x / 16 * 16
        && bit_or (x / 16 * 16) 1 == x / 16 * 16 + 1
        && bit_or (x / 16 * 16) 2 == x / 16 * 16 + 2
        && bit_or (x / 16 * 16) 3 == x / 16 * 16 + 3
        && bit_or (x / 16 * 16) 4 == x / 16 * 16 + 4
        && bit_or (x / 16 * 16) 5 == x / 16 * 16 + 5)
      65536
    ≡ true
unfolding passes_below
code_table = refl

pub clear_masks :
    (x : ℕ)
    → x < 65536
    → (bit_and x 0x7FFF ≡ x % 32768)
      × (bit_and x 0xFDFF ≡ x / 1024 * 1024 + x % 512)
      × (bit_and x 0xFF7F ≡ x / 256 * 256 + x % 128)
      × (bit_and x 0xFBFF ≡ x / 2048 * 2048 + x % 1024)
      × (bit_and x 0x87FF ≡ x / 32768 * 32768 + x % 2048)
      × (bit_and x 0xFFF0 ≡ x / 16 * 16)
clear_masks x h = ground (arith, passes_below_lem _ 65536 x h clear_table)

pub set_masks :
    (x : ℕ)
    → x < 65536
    → (bit_or (x % 32768) 0x8000 ≡ x % 32768 + 0x8000)
      × (bit_or (x / 1024 * 1024 + x % 512) 0x200 ≡ x / 1024 * 1024 + x % 512 + 0x200)
      × (bit_or (x / 256 * 256 + x % 128) 0x80 ≡ x / 256 * 256 + x % 128 + 0x80)
      × (bit_or (x / 2048 * 2048 + x % 1024) 0x400 ≡ x / 2048 * 2048 + x % 1024 + 0x400)
set_masks x h = ground (arith, passes_below_lem _ 65536 x h set_table)

pub test_masks :
    (x : ℕ)
    → x < 65536
    → (bit_and x 0x8000 ≡ x / 32768 * 32768)
      × (bit_and x 0x200 ≡ x / 512 % 2 * 512)
      × (bit_and x 0x80 ≡ x / 128 % 2 * 128)
      × (bit_and x 0x400 ≡ x / 1024 % 2 * 1024)
      × (bit_and x 0x100 ≡ x / 256 % 2 * 256)
      × (bit_and x 0xF ≡ x % 16)
      × (bit_and x 0xC000 ≡ x / 16384 * 16384)
      × (bit_or x 0xC000 ≡ 49152 + x % 16384)
test_masks x h = ground (arith, passes_below_lem _ 65536 x h test_table)

pub code_masks :
    (x : ℕ)
    → x < 65536
    → (bit_or (x / 16 * 16) 0 ≡ x / 16 * 16)
      × (bit_or (x / 16 * 16) 1 ≡ x / 16 * 16 + 1)
      × (bit_or (x / 16 * 16) 2 ≡ x / 16 * 16 + 2)
      × (bit_or (x / 16 * 16) 3 ≡ x / 16 * 16 + 3)
      × (bit_or (x / 16 * 16) 4 ≡ x / 16 * 16 + 4)
      × (bit_or (x / 16 * 16) 5 ≡ x / 16 * 16 + 5)
code_masks x h = ground (arith, passes_below_lem _ 65536 x h code_table)

-- ===== src/Boot/SetUp.antt =====
-- The memory that the set-up of the components leaves.
use msp430_emulator.Base.{ℕ, ◌≤◌, ◌≡◌, List, [], ◌∷◌, bit_or, arith, ◌∙◌}
use msp430_emulator.Base.Bits.{bit_and-le, bit_or-lt}
use msp430_emulator.Machine.Init.{}
use msp430_emulator.Bcm.{setup_bcm_memory}
use msp430_emulator.TimerA.{setup_timer_a_memory, clear_words, set_word}
use msp430_emulator.Port1.{setup_memory}
use msp430_emulator.Usci.{setup_usci}
use msp430_emulator.Emulator.Kept.{IsBytes}
use msp430_emulator.Boot.{}
use msp430_emulator.Boot.Contents.{}

-- The memory of the components, as `set_up` leaves it.
abbrev pub set_up_memory : (ℕ → ℕ) → ℕ → ℕ
set_up_memory m = setup_usci (setup_memory (setup_timer_a_memory (setup_bcm_memory m)))

setup_bcm_memory-IsBytes : (m : ℕ → ℕ) → IsBytes m → IsBytes (setup_bcm_memory m)
setup_bcm_memory-IsBytes m h a = ground (arith, h a)

clear_words-IsBytes : (l : List ℕ) (m : ℕ → ℕ) → IsBytes m → IsBytes (clear_words l m)
unfolding clear_words
clear_words-IsBytes [] m h = h
clear_words-IsBytes (b ∷ l) m h = clear_words-IsBytes l (set_word m b 0) (λ a. ground (arith, h a))

setup_memory-IsBytes : (m : ℕ → ℕ) → IsBytes m → IsBytes (setup_memory m)
unfolding setup_memory
setup_memory-IsBytes m h a = ground (arith, h a)

setup_usci-IsBytes : (m : ℕ → ℕ) → IsBytes m → IsBytes (setup_usci m)
unfolding setup_usci
setup_usci-IsBytes m h a =
    ground (arith, h a, bit_or-lt 8 (m 3) 2 (h 3), bit_and-le (bit_or (m 3) 2) 254)

pub set_up_memory-IsBytes : (m : ℕ → ℕ) → IsBytes m → IsBytes (set_up_memory m)
set_up_memory-IsBytes m h = setup_usci-IsBytes _ (
    setup_memory-IsBytes _
      (clear_words-IsBytes _ _ (clear_words-IsBytes _ _ (setup_bcm_memory-IsBytes m h))))

-- The set-up writes below 0x200 only.
setup_bcm_memory-above : (m : ℕ → ℕ) (x : ℕ) → 0x200 ≤ x → setup_bcm_memory m x ≡ m x
setup_bcm_memory-above m x h = ground arith

setup_timer_a_memory-above : (m : ℕ → ℕ) (x : ℕ) → 0x200 ≤ x → setup_timer_a_memory m x ≡ m x
unfolding clear_words
setup_timer_a_memory-above m x h = ground arith

setup_memory-above : (m : ℕ → ℕ) (x : ℕ) → 0x200 ≤ x → setup_memory m x ≡ m x
unfolding setup_memory
setup_memory-above m x h = ground arith

setup_usci-above : (m : ℕ → ℕ) (x : ℕ) → 0x200 ≤ x → setup_usci m x ≡ m x
unfolding setup_usci
setup_usci-above m x h = ground arith

pub set_up_memory-above : (m : ℕ → ℕ) (x : ℕ) → 0x200 ≤ x → set_up_memory m x ≡ m x
set_up_memory-above m x h =
    setup_usci-above _ x h
    ∙ setup_memory-above _ x h
    ∙ setup_timer_a_memory-above _ x h
    ∙ setup_bcm_memory-above m x h

-- ===== src/Usci/Transmit.antt =====
-- What the serial port transmits.
use msp430_emulator.Base.{
  ℕ, ◌<◌, ◌^◌, ◌%◌, ◌≡◌, Bool, true, false, Option, none, some, has, bit_and, bit_or, ◌==◌, ==_iff,
  Bool-cases, inl, inr, ◌&&◌, ◌||◌, not, update, passes, passes_lem, arith, refl, ap, fun_ext, ◌∙◌,
  if◌then◌else◌,
}
use msp430_emulator.Base.Bits.{bit_and_mask}
use msp430_emulator.Port1.{Pin}
use msp430_emulator.Usci.{ifg2_vloc, txbuf_vloc, lower_flag, raise_flag, transmit, handle_usci}

flag_table : passes (λ v. not (has v 2) || bit_or (bit_and v 253) 2 == v) 256 ≡ true
unfolding passes
flag_table = refl

flag_back : (v : ℕ) → v < 2 ^ 8 → has v 2 ≡ true → bit_or (bit_and v 253) 2 ≡ v
flag_back v h e = (==_iff _ v).0 (kept (has v 2) _ e (passes_lem _ 256 v flag_table h))
  where
    kept : (b c : Bool) → b ≡ true → (not b || c) ≡ true → c ≡ true
    kept b c p q = ground arith

-- The memory with the byte to send taken out.
abbrev pub emptied : (ℕ → ℕ) → ℕ → ℕ
emptied m = update m txbuf_vloc 0

module _ (web_interface : Bool) (m : ℕ → ℕ) (bytes : (a : ℕ) → m a < 2 ^ 8)
    (flag : has (m ifg2_vloc) 2 ≡ true) where
  same : (a b : ℕ) → a ≡ b → m a ≡ m b
  same a b e = ap m e

  sent_memory : raise_flag (update (lower_flag m) txbuf_vloc 0) ≡ emptied m
  sent_memory = fun_ext (λ a. ground (arith, flag_back (m 3) (bytes 3) flag, same a 3))

  kept_memory : m txbuf_vloc ≡ 0 → raise_flag (lower_flag m) ≡ emptied m
  kept_memory e =
      fun_ext (λ a. ground (arith, flag_back (m 3) (bytes 3) flag, e, same a 3, same a 0x67))

  transmit-eq : transmit web_interface m ≡ (
    emptied m,
    (if web_interface && not (m txbuf_vloc == 0) then some (m txbuf_vloc) else none),
  )
  unfolding transmit
  transmit-eq =
      rw (bit_and_mask 8 (m txbuf_vloc), fits)
        (elim (Bool-cases (m txbuf_vloc == 0)) [
          | inl e ↦ rw (e, and_false web_interface) (λ i. (kept_memory ((==_iff _ 0).0 e) i, none))
          | inr e ↦
              rw (e, and_true web_interface)
                (λ i. (sent_memory i, (if web_interface then some (m txbuf_vloc) else none)))
        ])
    where
      fits : m txbuf_vloc % 2 ^ 8 ≡ m txbuf_vloc
      fits = omega (arith, bytes txbuf_vloc)

      and_false : (b : Bool) → (b && false) ≡ false
      and_false b = ground arith

      and_true : (b : Bool) → (b && true) ≡ b
      and_true b = ground arith

module _ (web_interface : Bool) (pin2 : Pin) (m : ℕ → ℕ) (bytes : (a : ℕ) → m a < 2 ^ 8)
    (active : (pin2.sel && pin2.sel2) ≡ true) (flag : has (m ifg2_vloc) 2 ≡ true) where
  -- Over a memory of bytes with the transmit flag raised, and with both select flags of pin 2 set,
  -- a pass over the serial port empties the transmit buffer, keeps the rest of the memory, the flag
  -- included, and sends the byte that was in the buffer if it is not zero and the web interface is
  -- in use; a second pass sends nothing and changes nothing.
  pub handle_usci_lem :
      (handle_usci web_interface pin2 m ≡ (
        emptied m,
        (if web_interface && not (m txbuf_vloc == 0) then some (m txbuf_vloc) else none),
      ))
      × (handle_usci web_interface pin2 (emptied m) ≡ (emptied m, none))
  unfolding handle_usci
  handle_usci_lem = (
    rw (active, flag) (transmit-eq web_interface m bytes flag),
    rw (active, flag) (transmit-eq web_interface (emptied m) emptied-lt flag ∙ again web_interface),
  )
    where
      emptied-lt : (a : ℕ) → emptied m a < 2 ^ 8
      emptied-lt a = ground (arith, bytes a)

      again_memory : emptied (emptied m) ≡ emptied m
      again_memory = fun_ext (λ a. ground arith)

      again :
          (b : Bool)
          → ◌≡◌ {A = (ℕ → ℕ) × Option ℕ}
              (emptied (emptied m), (if b && false then some 0 else none))
              (emptied m, none)
      again true i = (again_memory i, none)
      again false i = (again_memory i, none)

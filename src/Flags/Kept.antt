-- ===== src/Flags/Kept.antt =====
-- The flag tests keep the machine.
use msp430_emulator.Base.{ℕ}
use msp430_emulator.Machine.{Machine, Loc, Width}
use msp430_emulator.Machine.Keeps.{Keeps, Any, step, done, Keeps-load}
use msp430_emulator.Flags.{is_zero, is_negative, is_overflowed}

module _ (r : Machine) where
  pub Keeps-is_zero : (l : Loc) (w : Width) → Keeps r Any (is_zero l w)
  unfolding is_zero
  Keeps-is_zero l w s i = step r (Keeps-load r w l s i) λ v t j _. done _ t j tt

  pub Keeps-is_negative : (l : Loc) (w : Width) → Keeps r Any (is_negative l w)
  unfolding is_negative
  Keeps-is_negative l w s i = step r (Keeps-load r w l s i) λ v t j _. done _ t j tt

  pub Keeps-is_overflowed : (a b : ℕ) (l : Loc) (w : Width) → Keeps r Any (is_overflowed a b l w)
  unfolding is_overflowed
  Keeps-is_overflowed a b l w s i = step r (Keeps-load r w l s i) λ v t j _. done _ t j tt

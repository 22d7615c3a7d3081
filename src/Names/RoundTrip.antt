-- ===== src/Names/RoundTrip.antt =====
-- Names of registers in any mixture of upper and lower case.
use msp430_emulator.Base.{
  ℕ, zero, suc, ◌<◌, ◌≡◌, some, List, lower, matches, matches-lower, arith, refl, ◌∙◌,
}
use msp430_emulator.Names.{reg_name_to_num, reg_num_to_name}

reg_name_to_num-lower : (s t : List ℕ) → lower s ≡ lower t → reg_name_to_num s ≡ reg_name_to_num t
unfolding reg_name_to_num
reg_name_to_num-lower s t e =
    let same : (n : ℕ) (a : List ℕ) → matches n a s ≡ matches n a t =
      λ n a. matches-lower n a s t e in
    simp same refl

table : (n : ℕ) → n < 16 → reg_name_to_num (reg_num_to_name n) ≡ some n
unfolding reg_name_to_num reg_num_to_name matches
table zero h = refl
table (suc zero) h = refl
table (suc (suc zero)) h = refl
table (suc (suc (suc zero))) h = refl
table (suc (suc (suc (suc zero)))) h = refl
table (suc (suc (suc (suc (suc zero))))) h = refl
table (suc (suc (suc (suc (suc (suc zero)))))) h = refl
table (suc (suc (suc (suc (suc (suc (suc zero))))))) h = refl
table (suc (suc (suc (suc (suc (suc (suc (suc zero)))))))) h = refl
table (suc (suc (suc (suc (suc (suc (suc (suc (suc zero))))))))) h = refl
table (suc (suc (suc (suc (suc (suc (suc (suc (suc (suc zero)))))))))) h = refl
table (suc (suc (suc (suc (suc (suc (suc (suc (suc (suc (suc zero))))))))))) h = refl
table (suc (suc (suc (suc (suc (suc (suc (suc (suc (suc (suc (suc zero)))))))))))) h = refl
table (suc (suc (suc (suc (suc (suc (suc (suc (suc (suc (suc (suc (suc zero))))))))))))) h = refl
table (suc (suc (suc (suc (suc (suc (suc (suc (suc (suc (suc (suc (suc (suc zero)))))))))))))) h =
    refl
table (suc (suc (suc (suc (suc (suc (suc (suc (suc (suc (suc (suc (suc (suc (suc zero)))))))))))))))
      h =
    refl
table
      (suc
        (suc (suc (suc (suc (suc (suc (suc (suc (suc (suc (suc (suc (suc (suc (suc n))))))))))))))))
      h =
    absurd (omega arith)

-- The name that reg_num_to_name gives to a register from 0 to 15, in any mixture of upper and lower
-- case, is read as that register by reg_name_to_num.
pub reg_name_to_num-reg_num_to_name :
    (n : ℕ) (name : List ℕ)
    → n < 16
    → lower name ≡ lower (reg_num_to_name n)
    → reg_name_to_num name ≡ some n
reg_name_to_num-reg_num_to_name n name h e =
    reg_name_to_num-lower name (reg_num_to_name n) e ∙ table n h

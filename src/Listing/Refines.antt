-- ===== src/Listing/Refines.antt =====
-- A listing changes the machine as `disassemble` does.
use msp430_emulator.Base.{ℕ, zero, suc, ◌≡◌, Bool, true, List, refl, update}
use msp430_emulator.Machine.{Machine, M, Result, ok, fault, fetch, and_then, ◌>>=◌}
use msp430_emulator.Decoder.{decode}
use msp430_emulator.Decoder.Kept.{ok-state}
use msp430_emulator.Disassembler.{decode_range, disassemble}
use msp430_emulator.Disassembler.Frame.{disassemble_lem}
use msp430_emulator.Listing.{decode_text, with_text, decode_shown, list_range, list}

-- What a run that ended well did in its first part.
record Parts {A B : Type 0} (x : Result (A × Machine)) (k : A → M B) (b : B) (t : Machine)
    : Type 0 where
  a : A
  u : Machine
  first : x ≡ ok (a, u)
  second : k a u ≡ ok (b, t)

parts :
    {A B : Type 0} (x : Result (A × Machine)) (k : A → M B) (b : B) (t : Machine)
    → and_then x k ≡ ok (b, t)
    → Parts x k b t
parts (ok (a, u)) k b t e = record { a = a; u = u; first = refl; second = e }
parts (fault f) k b t e = cc

decode_shown-machine :
    (n : ℕ) (s : Machine) (text : List ℕ) (t : Machine)
    → decode_shown n s ≡ ok (text, t)
    → decode n true s ≡ ok (tt, t)
unfolding decode_shown
decode_shown-machine n s text t e = shown (decode_text n s) e
  where
    shown :
        (x : Result (List ℕ))
        → and_then (with_text x s) (λ l. decode n true >>= λ _ u. ok (l, u)) ≡ ok (text, t)
        → decode n true s ≡ ok (tt, t)
    shown (ok l) h = ended (decode n true s) h
      where
        ended :
            (y : Result (Unit {0} × Machine))
            → and_then y (λ _ u. ok (l, u)) ≡ ok (text, t)
            → y ≡ ok (tt, t)
        ended (ok (tt, u)) h = cc
        ended (fault f) h = cc
    shown (fault f) h = cc

list_range-machine :
    (web : Bool) (times : ℕ) (s : Machine) (text : List ℕ) (t : Machine)
    → list_range web times s ≡ ok (text, t)
    → decode_range times s ≡ ok (tt, t)
unfolding list_range decode_range
list_range-machine web zero s text t e = let same : s ≡ t = cc in rw same refl
list_range-machine web (suc times) s text t e =
    let fetched = parts (fetch s) _ text t e in
    let shown = parts (decode_shown fetched.a fetched.u) _ text t fetched.second in
    let rest = parts (list_range web times shown.u) _ text t shown.second in
    rw
      (
        fetched.first,
        decode_shown-machine fetched.a fetched.u shown.a shown.u shown.first,
        list_range-machine web times shown.u rest.a rest.u rest.first,
        ok-state rest.u t rest.second,
      )
      refl

list-machine :
    (web : Bool) (start_addr times : ℕ) (s t : Machine) (text : List ℕ)
    → list web start_addr times s ≡ ok (text, t)
    → disassemble start_addr times s ≡ ok (tt, t)
unfolding list disassemble
list-machine web start_addr times s t text e =
    let start : Machine = record s { regs = update s.regs 0 start_addr } in
    let listed = parts (list_range web times start) _ text t e in
    rw
      (
        list_range-machine web times start listed.a listed.u listed.first,
        ok-state _ t listed.second,
      )
      refl

-- A listing of any number of instructions from any address, with its text, that runs into no fault
-- ends in the machine in which disassemble ends, with memory, status register and program counter
-- as they were.
pub list_lem :
    (web : Bool) (start_addr times : ℕ) (s t : Machine) (text : List ℕ)
    → list web start_addr times s ≡ ok (text, t)
    → (disassemble start_addr times s ≡ ok (tt, t))
      × (t.memspace ≡ s.memspace)
      × (t.sr ≡ s.sr)
      × (t.regs 0 ≡ s.regs 0)
list_lem web start_addr times s t text e =
    let run : disassemble start_addr times s ≡ ok (tt, t) =
      list-machine web start_addr times s t text e in
    let same = disassemble_lem start_addr times s t run in (run, same.0, same.1, same.2)

-- ===== src/Web/Upload/Chunks.antt =====
-- An upload in any division into messages.
use msp430_emulator.Base.{ℕ, Bool, some, List, [], ◌∷◌}
use msp430_emulator.Web.Upload.{Upload, Received, returned, other, exits, undefined, receive}

-- The state with `written` in the file, of which there are `n` bytes.
abbrev pub holding : Upload → List ℕ → ℕ → Upload
holding u written n = record u { file = some written; uploaded_bytes = n }

abbrev and_then : Received → (Upload → Received) → Received
and_then (returned u) next = next u
and_then (other opcode u) next = other opcode u
and_then (exits u) next = exits u
and_then undefined next = undefined

module _ (fopen : List ℕ → Bool) where
  -- The callback run on the messages in order, as long as it returns.
  abbrev pub receive_all : List (List ℕ) → Upload → Received
  receive_all [] u = returned u
  receive_all (message ∷ messages) u = and_then (receive fopen message u) (receive_all messages)

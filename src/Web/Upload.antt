-- ===== src/Web/Upload.antt =====
-- The branch LWS_CALLBACK_RECEIVE of `callback_emu` in debugger/websockets/emu_server.cpp, for the
-- upload of a file: the messages of opcode 0x00 and those that continue an upload.
pub mod Chunks
use mathlib.Core.Option
use msp430_emulator.Base.{
  ℕ, zero, suc, ◌^◌, ◌==◌, ◌+◌, ◌*◌, Bool, true, false, Option, none, some, List, [], ◌∷◌, ◌++◌,
  leb, u32, if◌then◌else◌,
}

-- The static variables, and what the code does to other parts: `file` is what was written through
-- `fp` since it was opened, `none` for a `fp` that is null; `quit` and `web_firmware_uploaded` are
-- the debugger's. The conversion of the file by `objcopy` is not modelled.
pub record Upload : Type 0 where
  pub file : Option (List ℕ)
  pub upload_in_progress : Bool
  pub uploaded_bytes : ℕ
  pub file_size : ℕ
  pub upload_file_name : List ℕ
  pub web_firmware_uploaded : Bool

-- How the callback ends: it returns, it leaves the message to the code for another opcode, it ends
-- the process, or it runs into what C leaves undefined: a read behind the message, or a write
-- through a null pointer.
pub data Received : Type 0 where
  returned : Upload → Received
  other : ℕ → Upload → Received
  exits : Upload → Received
  undefined : Received

-- `fwrite(&buf[i], 1, 1, fp); uploaded_bytes++;`
abbrev pub write_byte : ℕ → Upload → List ℕ → Upload
write_byte b u written = record u {
  file = some (written ++ (b ∷ []));
  uploaded_bytes = u32 (u.uploaded_bytes + 1);
}

-- The branch for `uploaded_bytes >= FileSize`.
abbrev pub finish : Upload → Upload
finish u = record u { web_firmware_uploaded = true; upload_in_progress = false }

-- The loop over the bytes of a message from `i` on.
unfoldable pub upload_bytes : List ℕ → Upload → Received
upload_bytes [] u = returned u
upload_bytes (b ∷ bytes) u = elim u.file [
  | none ↦ undefined
  | some written ↦
      let next = write_byte b u written in
      if leb next.file_size next.uploaded_bytes
      then returned (finish next)
      else upload_bytes bytes next
]

-- The first `n` bytes and the others; `none` where there are fewer.
abbrev pub split_at : ℕ → List ℕ → Option (List ℕ × List ℕ)
split_at zero xs = some ([], xs)
split_at (suc n) [] = none
split_at (suc n) (x ∷ xs) = Option.map (λ parts. (x ∷ parts.0, parts.1)) (split_at n xs)

-- Whether `fopen` opens the file of that name for writing is a parameter.
module _ (fopen : List ℕ → Bool) where
  -- The state in which the loop of the first message starts.
  abbrev pub begin : ℕ → List ℕ → Upload → Upload
  begin size name u = record u {
    file = if fopen name then some [] else none;
    upload_in_progress = true;
    uploaded_bytes = 0;
    file_size = size;
    upload_file_name = name;
  }

  -- `case 0x00`: two bytes of file size and two of name size, each the upper one first as `ntohs`
  -- takes them, the name, and the first bytes of the file.
  unfoldable pub upload_file : List ℕ → Upload → Received
  upload_file (size_high ∷ size_low ∷ name_high ∷ name_low ∷ rest) u =
      let size = size_high * 2 ^ 8 + size_low in
      if leb 0xFFFF size
      then exits (record u { file_size = size })
      else elim (split_at (name_high * 2 ^ 8 + name_low) rest) [
        | none ↦ undefined
        | some parts ↦ upload_bytes parts.1 (begin size parts.0 u)
      ]
  upload_file _ u = undefined

  unfoldable pub receive : List ℕ → Upload → Received
  receive message u =
      if u.upload_in_progress then upload_bytes message u else receive_opcode message u
    where
      receive_opcode : List ℕ → Upload → Received
      receive_opcode [] u = undefined
      receive_opcode (opcode ∷ rest) u = if opcode == 0 then upload_file rest u else other opcode u

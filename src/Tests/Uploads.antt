-- ===== src/Tests/Uploads.antt =====
-- A file of five bytes in three messages, of which the last has two bytes too many.
use msp430_emulator.Base.{ℕ, Bool, true, false, none, List, []}
use msp430_emulator.Web.Upload.{Upload}

abbrev pub idle : Upload
idle = record {
  file = none;
  upload_in_progress = false;
  uploaded_bytes = 0;
  file_size = 0;
  upload_file_name = [];
  web_firmware_uploaded = false;
}

abbrev pub always : List ℕ → Bool
always name = true

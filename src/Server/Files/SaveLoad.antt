-- ===== src/Server/Files/SaveLoad.antt =====
-- Hours that core/devices/ZejfMeteo/src/zejf_data_loader.c writes and reads back.
use zejf_meteo.Common.{ℕ, ◌≡◌, true, some, List, length}
use zejf_meteo.Server.Files.{LocalTime, Disk}

-- What was written to an open file is there to be read.
pub record KeepsWritten {W : Type 0} (disk : Disk W) : Type 0 where
  pub exists :
      (p buffer : List ℕ) (w w' : W) → disk.write p buffer w ≡ (true, w') → disk.exists p w' ≡ true
  pub open_read :
      (p buffer : List ℕ) (w w' : W)
      → disk.write p buffer w ≡ (true, w')
      → disk.open_read p w' ≡ true
  pub size :
      (p buffer : List ℕ) (w w' : W)
      → disk.write p buffer w ≡ (true, w')
      → disk.size p w' ≡ length buffer
  pub read :
      (p buffer : List ℕ) (w w' : W)
      → disk.write p buffer w ≡ (true, w')
      → disk.read p (length buffer) w' ≡ some buffer

module _ {W : Type 0} (disk : Disk W) (localtime : ℕ → LocalTime) where
  -- A save that succeeds ended with a write that did.
  record Wrote (path buffer : List ℕ) (w' : W) : Type 0 where
    before : W
    written : disk.write path buffer before ≡ (true, w')

-- ===== src/Server/Files.antt =====
-- The files of hours: core/devices/ZejfMeteo/src/zejf_data_loader.c. A path is its bytes. The system
-- calls are a parameter; what the time zone makes of an hour is one too. strftime writes the year as a
-- decimal number and the others with two digits.
pub mod SaveLoad
use zejf_meteo.Common.{
  ℕ, ◌+◌, ◌/◌, ◌%◌, ◌==◌, Bool, true, false, not, ◌||◌, Option, none, some, List, [], ◌∷◌, ◌++◌,
  ltb, if◌then◌else◌, get_elem?,
}
use zejf_meteo.Common.Text.{decimal}
use zejf_meteo.Defs.{ZejfErr, ok, err_file_doesnt_exist, err_io}

abbrev pub hour_file_max_size : ℕ
hour_file_max_size = 8388608

abbrev pub slash : ℕ
slash = 47

-- "./ZejfMeteo/data/".
abbrev data_folder : List ℕ
data_folder =
    46 ∷ 47 ∷ 90 ∷ 101 ∷ 106 ∷ 102 ∷ 77 ∷ 101 ∷ 116 ∷ 101 ∷ 111 ∷ 47 ∷ 100 ∷ 97 ∷ 116 ∷ 97 ∷ 47 ∷ []

abbrev months : List (List ℕ)
months =
    (74 ∷ 97 ∷ 110 ∷ 117 ∷ 97 ∷ 114 ∷ 121 ∷ [])
    ∷ (70 ∷ 101 ∷ 98 ∷ 114 ∷ 117 ∷ 97 ∷ 114 ∷ 121 ∷ [])
    ∷ (77 ∷ 97 ∷ 114 ∷ 99 ∷ 104 ∷ [])
    ∷ (65 ∷ 112 ∷ 114 ∷ 105 ∷ 108 ∷ [])
    ∷ (77 ∷ 97 ∷ 121 ∷ [])
    ∷ (74 ∷ 117 ∷ 110 ∷ 101 ∷ [])
    ∷ (74 ∷ 117 ∷ 108 ∷ 121 ∷ [])
    ∷ (65 ∷ 117 ∷ 103 ∷ 117 ∷ 115 ∷ 116 ∷ [])
    ∷ (83 ∷ 101 ∷ 112 ∷ 116 ∷ 101 ∷ 109 ∷ 98 ∷ 101 ∷ 114 ∷ [])
    ∷ (79 ∷ 99 ∷ 116 ∷ 111 ∷ 98 ∷ 101 ∷ 114 ∷ [])
    ∷ (78 ∷ 111 ∷ 118 ∷ 101 ∷ 109 ∷ 98 ∷ 101 ∷ 114 ∷ [])
    ∷ (68 ∷ 101 ∷ 99 ∷ 101 ∷ 109 ∷ 98 ∷ 101 ∷ 114 ∷ [])
    ∷ []

-- The fields of struct tm that the path uses; the year is the full one.
pub record LocalTime : Type 0 where
  pub tm_year : ℕ
  pub tm_mon : ℕ
  pub tm_mday : ℕ
  pub tm_hour : ℕ

pub data Mkdir : Type 0 where
  made already_there failed : Mkdir

-- The calls of the system over its state: stat and access, mkdir, fopen for writing, fwrite of a whole
-- buffer with fclose, fopen for reading, the size by ftell, and fread of that many bytes.
pub record Disk (W : Type 0) : Type 0 where
  pub exists : List ℕ → W → Bool
  pub mkdir : List ℕ → W → Mkdir × W
  pub open_write : List ℕ → W → Bool × W
  pub write : List ℕ → (buffer : List ℕ) → W → Bool × W
  pub open_read : List ℕ → W → Bool
  pub size : List ℕ → W → ℕ
  pub read : List ℕ → (fsize : ℕ) → W → Option (List ℕ)

-- The name of a month; tm_mon is below 12.
abbrev month : ℕ → List ℕ
month m = elim (get_elem? months m) [ none ↦ [] | some name ↦ name ]

unfoldable pub two_digits : ℕ → List ℕ
two_digits v = (48 + (v / 10) % 10) ∷ (48 + v % 10) ∷ []

-- The folder with its last slash, and the name in it.
unfoldable pub day_folder : LocalTime → List ℕ
day_folder t = data_folder ++ (decimal t.tm_year ++ (slash ∷ (month t.tm_mon ++ (slash ∷ []))))

unfoldable pub hour_name : LocalTime → List ℕ
unfolding two_digits
hour_name t =
    two_digits t.tm_mday ++ (95 ∷ (two_digits t.tm_hour ++ (72 ∷ 46 ∷ 100 ∷ 97 ∷ 116 ∷ [])))

unfoldable pub zejf_day_path : (localtime : ℕ → LocalTime) → (hour_number : ℕ) → List ℕ
unfolding day_folder hour_name
zejf_day_path localtime hour_number = let t = localtime hour_number in day_folder t ++ hour_name t

-- Up to and with the last slash.
unfoldable pub path_only : List ℕ → List ℕ
path_only [] = []
path_only (b ∷ bs) = elim (path_only bs) [
  | [] ↦ if b == slash then b ∷ [] else []
  | x ∷ xs ↦ b ∷ x ∷ xs
]

module _ {W : Type 0} (disk : Disk W) where
  -- The loop of `mkpath`, with the path up to where it is.
  unfoldable pub mkpath_loop : (before : List ℕ) → List ℕ → W → Bool × W
  mkpath_loop before [] w = (true, w)
  mkpath_loop before (b ∷ bs) w =
      let (result, w') = disk.mkdir before w in
      let later = mkpath_loop (before ++ (b ∷ [])) bs w' in
      let onwards = mkpath_loop (before ++ (b ∷ [])) bs w in
      if not (b == slash)
      then onwards
      else elim result [ failed ↦ (false, w') | made ↦ later | already_there ↦ later ]

  -- The first character is passed over.
  unfoldable pub mkpath : List ℕ → W → Bool × W
  unfolding mkpath_loop
  mkpath [] w = (true, w)
  mkpath (b ∷ bs) w = mkpath_loop (b ∷ []) bs w

  module _ (localtime : ℕ → LocalTime) where
    unfoldable pub hour_save : (hour_number : ℕ) → (buffer : List ℕ) → W → ZejfErr × W
    hour_save hour_number buffer w =
        let path = zejf_day_path localtime hour_number in
        let (there, w1) =
          if disk.exists (path_only path) w then (true, w) else mkpath (path_only path) w in
        let (opened, w2) = disk.open_write path w1 in
        let (result, w3) = disk.write path buffer w2 in
        if not there
        then (err_io, w1)
        else if not opened
        then (err_io, w2)
        else ((if result then ok else err_io), w3)

    unfoldable pub hour_load : (hour_number : ℕ) → W → (ZejfErr × List ℕ) × W
    hour_load hour_number w =
        let path = zejf_day_path localtime hour_number in
        let fsize = disk.size path w in
        if not (disk.exists path w)
        then ((err_file_doesnt_exist, []), w)
        else if not (disk.open_read path w)
        then ((err_io, []), w)
        else if ltb hour_file_max_size fsize || (fsize == 0)
        then ((err_io, []), w)
        else elim (disk.read path fsize w) [
          | none ↦ ((err_io, []), w)
          | some buffer ↦ ((ok, buffer), w)
        ]

-- ===== src/Provisioner/Time.antt =====
-- `parseIso8601Utc` of src/Provisioner.cpp.
use cks_loadtest.Base.{ℕ, Option, none, some, if◌then◌else◌}
use cks_loadtest.Base.Int.{ℤ, pos, negsuc, pos_part, ◌+ℤ◌, ◌-ℤ◌, ◌*ℤ◌, ◌==ℤ◌}
use cks_loadtest.Base.Text.{Text}
use cks_loadtest.Platform.{Floats}

-- What `sscanf` reads with "%d-%d-%dT%d:%d:%lf".
pub record Stamp (fl : Floats) : Type 0 where
  pub year : ℤ
  pub mon : ℤ
  pub day : ℤ
  pub hour : ℤ
  pub min : ℤ
  pub sec : fl.Double

-- `std::tm`
pub record Tm : Type 0 where
  pub tm_year : ℤ
  pub tm_mon : ℤ
  pub tm_mday : ℤ
  pub tm_hour : ℤ
  pub tm_min : ℤ
  pub tm_sec : ℤ

-- `scan` gives `none` unless all six fields are read; `timegm` is the function of the C library. A
-- time before the epoch of the clock counts as the epoch.
module _ (fl : Floats) (scan : Text → Option (Stamp fl)) (timegm : Tm → ℤ) where
  abbrev pub to_tm : Stamp fl → Tm
  to_tm s = record {
    tm_year = s.year -ℤ pos 1900;
    tm_mon = s.mon -ℤ pos 1;
    tm_mday = s.day;
    tm_hour = s.hour;
    tm_min = s.min;
    tm_sec = fl.to_i64 s.sec;
  }

  abbrev pub milliseconds_of : Stamp fl → ℤ
  milliseconds_of s =
      fl.to_i64 (fl.mul (fl.sub s.sec (fl.of_i64 (fl.to_i64 s.sec))) (fl.of_i64 (pos 1000)))

  abbrev pub time_of : ℕ → Option (Stamp fl) → ℕ
  time_of later none = later
  time_of later (some s) =
      let t = timegm (to_tm s) in
      if t ==ℤ negsuc 0
      then later
      else pos_part (pos 1_000_000_000 *ℤ t +ℤ pos 1_000_000 *ℤ milliseconds_of s)

  unfoldable pub parse_iso8601_utc : ℤ → ℕ → Text → ℕ
  parse_iso8601_utc fallback_sec now iso =
      time_of (pos_part (pos now +ℤ pos 1_000_000_000 *ℤ fallback_sec)) (scan iso)

-- ===== src/Auth/Timestamps.antt =====
-- `crossTimestamp` of db/schema.ts: how a column holds a time, by the driver.
use urateam.Prelude.{ℕ, ◌*◌, ◌/◌, ◌+◌, ◌≤◌, ◌<◌, arith}

pub data Driver : Type 0 where
  sqlite postgres : Driver

-- SQLite holds seconds, and Postgres the time itself.
abbrev pub to_driver : Driver → ℕ → ℕ
to_driver sqlite value = value / 1000
to_driver postgres value = value

abbrev pub from_driver : Driver → ℕ → ℕ
from_driver sqlite value = value * 1000
from_driver postgres value = value

-- Times keep their order, up to ties.
pub to_driver_mono : (d : Driver) (s t : ℕ) → s ≤ t → to_driver d s ≤ to_driver d t
to_driver_mono sqlite s t h = omega (arith, h)
to_driver_mono postgres s t h = h

-- Times that are a second apart stay apart.
pub to_driver_apart : (d : Driver) (s t : ℕ) → s + 1000 ≤ t → to_driver d s < to_driver d t
to_driver_apart sqlite s t h = omega (arith, h)
to_driver_apart postgres s t h = omega (arith, h)

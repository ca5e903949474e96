-- ===== src/Spool.antt =====
-- host/task/spool.py: bounded admission for the bodies of uploads. The free space that the disk
-- reports is an argument of each call (`none` for an OSError). The clearing of stale files at the
-- start is file-system work and is not modelled.
mod Examples
pub mod Budget
use rkcockpit.Common.{
  Bool, Option, false, if◌then◌else◌, leb, ltb, none, some, true, ℕ, ◌+◌, ◌-◌, ◌==◌, ◌||◌,
}

pub record Limiter : Type 0 where
  pub max_active : ℕ
  pub max_bytes : ℕ
  pub min_free_bytes : ℕ
  pub active : ℕ
  pub reserved : ℕ

-- The reasons of a SpoolBusy.
pub data Busy : Type 0 where
  size_out_of_budget space_unknown too_many_active bytes_exhausted disk_full : Busy

-- `_Lease`
pub record Lease : Type 0 where
  pub size : ℕ
  pub released : Bool

pub data Admission : Type 0 where
  admitted : Lease → Limiter → Admission
  refused : Busy → Admission

unfoldable pub init : ℕ → ℕ → ℕ → Limiter
init max_active max_bytes min_free_bytes = record {
  max_active = max_active;
  max_bytes = max_bytes;
  min_free_bytes = min_free_bytes;
  active = 0;
  reserved = 0;
}

-- `free - self._reserved - size < self.min_free_bytes`, with the subtractions moved across, since
-- Python's difference may be negative.
abbrev pub leaves_too_little : ℕ → ℕ → Limiter → Bool
leaves_too_little free size l = ltb free (l.min_free_bytes + l.reserved + size)

unfoldable pub acquire : Option ℕ → ℕ → Limiter → Admission
acquire disk size l =
    if size == 0 || ltb l.max_bytes size then refused size_out_of_budget else elim disk [
      | none ↦ refused space_unknown
      | some free ↦
          if leb l.max_active l.active
          then refused too_many_active
          else if ltb l.max_bytes (l.reserved + size)
          then refused bytes_exhausted
          else if leaves_too_little free size l
          then refused disk_full
          else admitted (record { size = size; released = false })
              (record l { active = l.active + 1; reserved = l.reserved + size })
    ]

-- `UploadSpoolLimiter._release`: `max(0, …)` is subtraction that stops at 0.
unfoldable pub give_back : ℕ → Limiter → Limiter
give_back size l = record l { active = l.active - 1; reserved = l.reserved - size }

-- `_Lease.release`
unfoldable pub release : Lease → Limiter → Lease × Limiter
unfolding give_back
release lease l =
    if lease.released
    then (lease, l)
    else (record lease { released = true }, give_back lease.size l)

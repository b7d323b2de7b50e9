-- ===== src/Exceptionbeat/DiskSpace.antt =====
-- Partitions that fill up: `collectDiskSpace`. `print_1` is `%.1f` of a float64, which is its bit
-- pattern; the usage of a mount point is given.
use monitorbeat.Base.{ℕ, ◌/◌, Bool, Option, none, some, List, [], ◌∷◌, ◌++◌, if◌then◌else◌}
use monitorbeat.Base.Float.{of_int, over_unit, nearest, gt_float}
use monitorbeat.Base.Int.{pos, lt_int}
use monitorbeat.Base.Text.{Text, codes}
use monitorbeat.Configs.Param.{print_int}
use monitorbeat.Configs.Tasks.{ExceptionbeatConfig}
use monitorbeat.Exceptionbeat.DiskRo.{PartitionStat}

-- `disk.UsageStat` as far as it is read.
pub record Usage : Type 0 where
  pub total : ℕ
  pub used : ℕ
  pub free : ℕ
  pub used_percent : ℕ
  pub inodes_used_percent : ℕ

pub record SpaceItem : Type 0 where
  pub mount_point : Text
  pub device : Text
  pub fstype : Text
  pub total_gb : ℕ
  pub used_gb : ℕ
  pub free_gb : ℕ
  pub used_percent : ℕ
  pub inodes_used_percent : ℕ
  pub reason : Text

-- 2 ^ 30.
abbrev gibi : ℕ
gibi = 1073741824

abbrev gibibytes : ℕ → ℕ
gibibytes n = over_unit gibi (pos n)

-- `usedPercent > float64(limit)`.
unfoldable pub is_used_up : ExceptionbeatConfig → Usage → Bool
unfolding gt_float of_int
is_used_up cfg u = gt_float u.used_percent (of_int cfg.disk_usage_percent)

-- `int(freeGB) < limit`: the float64 of the free bytes is a whole number, and its quotient is exact.
unfoldable pub is_short : ExceptionbeatConfig → Usage → Bool
unfolding nearest
is_short cfg u = lt_int (pos (nearest u.free / gibi)) cfg.disk_min_free_gb

module _ (print_1 : ℕ → Text) where
  unfoldable pub used_reason : ExceptionbeatConfig → Usage → Text
  unfolding print_int
  used_reason cfg u =
      codes "usage "
      ++ (print_1 u.used_percent
          ++ (codes "% > " ++ (print_int cfg.disk_usage_percent ++ codes "%")))

  unfoldable pub free_reason : ExceptionbeatConfig → Usage → Text
  unfolding print_int over_unit
  free_reason cfg u =
      codes "free "
      ++ (print_1 (gibibytes u.free)
          ++ (codes " GB < " ++ (print_int cfg.disk_min_free_gb ++ codes " GB")))

  -- The reason of an alert, if there is one.
  unfoldable pub space_reason : ExceptionbeatConfig → Usage → Option Text
  unfolding is_used_up is_short used_reason free_reason
  space_reason cfg u =
      if is_used_up cfg u
      then some
          (used_reason cfg u ++ (if is_short cfg u then codes "; " ++ free_reason cfg u else []))
      else if is_short cfg u
      then some (free_reason cfg u)
      else none

  unfoldable pub space_item : PartitionStat → Usage → Text → SpaceItem
  unfolding over_unit
  space_item p u reason = record {
    mount_point = p.mountpoint;
    device = p.device;
    fstype = p.fstype;
    total_gb = gibibytes u.total;
    used_gb = gibibytes u.used;
    free_gb = gibibytes u.free;
    used_percent = u.used_percent;
    inodes_used_percent = u.inodes_used_percent;
    reason = reason;
  }

  -- What the loop appends for a partition: nothing if its usage cannot be read.
  unfoldable pub space_of : ExceptionbeatConfig → PartitionStat → Option Usage → List SpaceItem
  unfolding space_reason space_item
  space_of cfg p none = []
  space_of cfg p (some u) = elim (space_reason cfg u) [
    | none ↦ []
    | some reason ↦ space_item p u reason ∷ []
  ]

  unfoldable pub spaces_of :
      ExceptionbeatConfig → (Text → Option Usage) → List PartitionStat → List SpaceItem
  unfolding space_of
  spaces_of cfg usage [] = []
  spaces_of cfg usage (p ∷ l) = space_of cfg p (usage p.mountpoint) ++ spaces_of cfg usage l

  -- `collectDiskSpace`.
  unfoldable pub collect_disk_space :
      ExceptionbeatConfig → (Text → Option Usage) → Option (List PartitionStat) → List SpaceItem
  unfolding spaces_of
  collect_disk_space cfg usage none = []
  collect_disk_space cfg usage (some parts) = spaces_of cfg usage parts

-- ===== src/Exceptionbeat/DiskRo.antt =====
-- Partitions that are mounted read-only: `collectDiskRO`. `match` is `filepath.Match`, with `none` for
-- a pattern that it refuses.
use monitorbeat.Base.{
  Bool, true, false, not, Option, none, some, List, [], ◌∷◌, ◌++◌, if◌then◌else◌,
}
use monitorbeat.Base.Text.{Text, codes, text_eq}

pub record PartitionStat : Type 0 where
  pub device : Text
  pub mountpoint : Text
  pub fstype : Text
  pub opts : List Text

pub data Reason : Type 0 where
  white_list detected : Reason

pub record RoItem : Type 0 where
  pub mount_point : Text
  pub device : Text
  pub fstype : Text
  pub opts : Text
  pub reason : Reason

-- `strings.Join` with a comma.
unfoldable pub join_opts : List Text → Text
join_opts [] = []
join_opts (o ∷ []) = o
join_opts (o ∷ p ∷ l) = o ++ (b',' ∷ join_opts (p ∷ l))

-- `isReadOnly`.
unfoldable pub is_read_only : List Text → Bool
is_read_only [] = false
is_read_only (o ∷ l) = if text_eq o (codes "ro") then true else is_read_only l

-- `roItem`.
unfoldable pub ro_item : PartitionStat → Reason → RoItem
unfolding join_opts
ro_item p reason = record {
  mount_point = p.mountpoint;
  device = p.device;
  fstype = p.fstype;
  opts = join_opts p.opts;
  reason = reason;
}

module _ (match : Text → Text → Option Bool) where
  -- `matchAny`.
  unfoldable pub match_any : Text → List Text → Bool
  match_any s [] = false
  match_any s (p ∷ l) = elim (match p s) [
    | none ↦ match_any s l
    | some matched ↦ if matched then true else match_any s l
  ]

  -- The loop of `collectDiskRO`.
  unfoldable pub check_partitions : List Text → List Text → List PartitionStat → List RoItem
  unfolding is_read_only ro_item match_any
  check_partitions white black [] = []
  check_partitions white black (p ∷ l) =
      let rest = check_partitions white black l in
      if not (is_read_only p.opts)
      then rest
      else if match_any p.mountpoint white
      then ro_item p white_list ∷ rest
      else if match_any p.mountpoint black
      then rest
      else ro_item p detected ∷ rest

  -- `collectDiskRO`; `none` is an error of `disk.Partitions`.
  unfoldable pub collect_disk_ro : List Text → List Text → Option (List PartitionStat) → List RoItem
  unfolding check_partitions
  collect_disk_ro white black none = []
  collect_disk_ro white black (some l) = check_partitions white black l

-- ===== src/Exceptionbeat/Gather.antt =====
-- A run of the task: `New` and `Run`. The host name and the time that the run took are left out.
use monitorbeat.Base.{ℕ, Bool, Option, none, List, [], length, if◌then◌else◌}
use monitorbeat.Base.Int.{ℤ, pos}
use monitorbeat.Base.Text.{Text}
use monitorbeat.Configs.Tasks.{ExceptionbeatConfig}
use monitorbeat.Exceptionbeat.Oom.{Kills, collect_oom}
use monitorbeat.Exceptionbeat.Corefile.{
  CoreFile, CoreState, DirEntry, collect_corefile, resolve_core_dir,
}
use monitorbeat.Exceptionbeat.DiskSpace.{Usage, SpaceItem, collect_disk_space}
use monitorbeat.Exceptionbeat.DiskRo.{PartitionStat, RoItem, collect_disk_ro}

-- The state of `Gather` that lasts from one run to the next.
pub record GatherState : Type 0 where
  pub core : CoreState
  pub last_oom_kill_count : ℤ

-- `New`.
unfoldable pub new_gather : GatherState
new_gather = record { core = record { files = []; check = none }; last_oom_kill_count = pos 0 }

-- What a run reads of the host.
pub record Host : Type 0 where
  pub partitions : Option (List PartitionStat)
  pub space_partitions : Option (List PartitionStat)
  pub usage : Text → Option Usage
  pub now : ℕ
  pub core_pattern : Option Text
  pub read_dir : Text → Option (List DirEntry)
  pub vmstat : Option Text

-- The lists of the event and their lengths among its metrics.
pub record Event : Type 0 where
  pub disk_ro : List RoItem
  pub disk_space : List SpaceItem
  pub corefile : List CoreFile
  pub oom : List Kills
  pub disk_ro_count : ℕ
  pub disk_space_count : ℕ
  pub corefile_count : ℕ
  pub oom_count : ℕ

module _ (match : Text → Text → Option Bool) (dir_of : Text → Text) (print_1 : ℕ → Text) where
  -- The core files and the state after them.
  unfoldable pub check_corefile : ExceptionbeatConfig → Host → CoreState → List CoreFile × CoreState
  unfolding collect_corefile resolve_core_dir
  check_corefile cfg host s =
      collect_corefile host.now (resolve_core_dir dir_of cfg.corefile_pattern host.core_pattern)
        host.read_dir s

  -- `Run`: a part that is switched off reports nothing and keeps its state.
  unfoldable pub run_gather : ExceptionbeatConfig → Host → GatherState → Event × GatherState
  unfolding collect_disk_ro collect_disk_space check_corefile collect_oom
  run_gather cfg host s =
      let ro =
        if cfg.check_disk_ro
        then collect_disk_ro match cfg.disk_ro_white_list cfg.disk_ro_black_list host.partitions
        else [] in
      let space =
        if cfg.check_disk_space
        then collect_disk_space print_1 cfg host.usage host.space_partitions
        else [] in
      let (files, core) =
        if cfg.check_corefile then check_corefile cfg host s.core else ([], s.core) in
      let (kills, last) =
        if cfg.check_oom
        then collect_oom host.vmstat s.last_oom_kill_count
        else ([], s.last_oom_kill_count) in
      (
        record {
          disk_ro = ro;
          disk_space = space;
          corefile = files;
          oom = kills;
          disk_ro_count = length ro;
          disk_space_count = length space;
          corefile_count = length files;
          oom_count = length kills;
        },
        record { core = core; last_oom_kill_count = last },
      )

-- ===== src/Output/Http/Rotate.antt =====
-- What a rotation of the fallback file keeps.
use monitorbeat.Base.{
  ℕ, zero, suc, ◌≡◌, ◌≢◌, ◌∙◌, ap, refl, true, false, none, some, Option-cases, inl, inr, arith,
  Option, ltb, is_some, ◌&&◌, if◌then◌else◌,
}
use monitorbeat.Base.Text.{Text}
use monitorbeat.Output.Disk.{Disk, rename}
use monitorbeat.Output.Http.{Config, Output, Faults, shift, retire, rotate_fallback}

abbrev pub NoRenameFails : Faults → Type 0
NoRenameFails faults = (i : ℕ) → faults.rename_fails i ≡ false

pub shift-ok :
    (faults : Faults) (n : ℕ) (d : Disk) → NoRenameFails faults → (shift faults n d).0 ≡ true
unfolding shift
shift-ok faults zero d w = refl
shift-ok faults (suc n) d w = elim (Option-cases (d (suc n))) [
  | inl e ↦ rw e (shift-ok faults n d w)
  | inr (t, e) ↦ rw (e, w (suc n)) (shift-ok faults n (rename (suc n) (suc (suc n)) d) w)
]

rename-other : (src dst : ℕ) (d : Disk) (k : ℕ) → k ≢ src → k ≢ dst → rename src dst d k ≡ d k
unfolding rename
rename-other src dst d k a b = ground arith

pub rename-dst : (src dst : ℕ) (d : Disk) → rename src dst d dst ≡ d src
unfolding rename
rename-dst src dst d = ground arith

pub rename-src : (src dst : ℕ) (d : Disk) → src ≢ dst → rename src dst d src ≡ none
unfolding rename
rename-src src dst d a = ground arith

-- A shift leaves the file itself.
pub shift-first :
    (faults : Faults) (n : ℕ) (d : Disk) → NoRenameFails faults → (shift faults n d).1 0 ≡ d 0
unfolding shift
shift-first faults zero d w = refl
shift-first faults (suc n) d w = elim (Option-cases (d (suc n))) [
  | inl e ↦ rw e (shift-first faults n d w)
  | inr (t, e) ↦
      rw (e, w (suc n))
        (shift-first faults n (rename (suc n) (suc (suc n)) d) w
          ∙ rename-other (suc n) (suc (suc n)) d 0 (omega arith) (omega arith))
]

-- What stands as backup `k + 2` once the file is rotated into at most `n` shifted backups: backup
-- `k + 1`, where it is shifted and there is one; else nothing, where backup `k + 2` is shifted
-- itself; else what stood there.
abbrev pub next_backup : ℕ → Disk → ℕ → Option Text
next_backup n d k =
    if ltb k n && is_some (d (suc k))
    then d (suc k)
    else (if ltb (suc k) n then none else d (suc (suc k)))

next_backup-missing :
    (n k : ℕ) (d : Disk) → d (suc n) ≡ none → next_backup n d k ≡ next_backup (suc n) d k
next_backup-missing n k d e = ground (arith, e)

next_backup-rename :
    (n k : ℕ) (d : Disk)
    → is_some (d (suc n)) ≡ true
    → next_backup n (rename (suc n) (suc (suc n)) d) k ≡ next_backup (suc n) d k
unfolding rename
next_backup-rename n k d e = ground (arith, e)

shift-next_backup :
    (faults : Faults) (n k : ℕ) (d : Disk)
    → NoRenameFails faults
    → (shift faults n d).1 (suc (suc k)) ≡ next_backup n d k
unfolding shift
shift-next_backup faults zero k d w = ground arith
shift-next_backup faults (suc n) k d w = elim (Option-cases (d (suc n))) [
  | inl e ↦ rw e (shift-next_backup faults n k d w ∙ next_backup-missing n k d e)
  | inr (t, e) ↦
      rw (e, w (suc n))
        (shift-next_backup faults n k (rename (suc n) (suc (suc n)) d) w
          ∙ next_backup-rename n k d (ap is_some e))
]

-- A rotation with no failing rename, of a file that exists, succeeds: the file becomes backup 1, and
-- what stands as each later backup is described for every number of backups that is configured,
-- none included, and whichever backups there are: backup `k + 1` becomes `k + 2` for each `k` below
-- the number, a place that is shifted and not filled again is empty, and the rest stays.
pub rotate_fallback_lem :
    (cfg : Config) (faults : Faults) (h : Output) (t : Text) (k : ℕ)
    → NoRenameFails faults
    → h.disk 0 ≡ some t
    → let (fine, after) = rotate_fallback cfg faults h in
      (fine ≡ true)
      × (after.disk 0 ≡ none)
      × (after.disk 1 ≡ some t)
      × (after.disk (suc (suc k)) ≡ next_backup cfg.fallback_max_backups h.disk k)
unfolding rotate_fallback retire
rotate_fallback_lem cfg faults h t k w e =
    let n = cfg.fallback_max_backups in
    let d = (shift faults n h.disk).1 in
    let first : d 0 ≡ some t = shift-first faults n h.disk w ∙ e in
    rw (shift-ok faults n h.disk w, w 0, first)
      (
        refl,
        rename-src 0 1 d (omega arith),
        rename-dst 0 1 d ∙ first,
        rename-other 0 1 d (suc (suc k)) (omega arith) (omega arith)
            ∙ shift-next_backup faults n k h.disk w,
      )

-- Where no rename fails, a rotation of a file that exists succeeds and makes it backup 1.
pub rotate_fallback-first :
    (cfg : Config) (faults : Faults) (h : Output) (t : Text)
    → NoRenameFails faults
    → h.disk 0 ≡ some t
    → ((rotate_fallback cfg faults h).0 ≡ true) × ((rotate_fallback cfg faults h).1.disk 1 ≡ some t)
unfolding rotate_fallback retire
rotate_fallback-first cfg faults h t w e =
    let n = cfg.fallback_max_backups in
    let d = (shift faults n h.disk).1 in
    let first : d 0 ≡ some t = shift-first faults n h.disk w ∙ e in
    rw (shift-ok faults n h.disk w, w 0, first) (refl, rename-dst 0 1 d ∙ first)

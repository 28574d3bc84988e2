-- ===== src/Backup.antt =====
-- Scheduled backups: internal/controller/backup/schedule.go, with setError of reconcile.go. Times are
-- numbers. The cron schedule, the clock, the creation of a Velero backup in a cluster, the lists of
-- backups and the update of the status are functions; the requests that were made are kept in a
-- list. The management cluster is the region "", and the regions come in the map's order.
pub mod Requests
pub mod Statuses
use kcm.Prelude.{
  ℕ, Bool, true, false, not, ◌&&◌, ◌||◌, List, [], ◌∷◌, ◌++◌, map, Option, none, some, String,
  if◌then◌else◌, ◌==◌, string_eq, nat_eq, any, ltb, append_str, Resolved, ok, error,
}
use kcm.Api.{Listed, items, list_failed}

-- ManagementBackupSingleStatus, of the backups of a region.
pub record RegionStatus : Type 0 where
  pub region : String
  pub last_backup_name : String
  pub last_backup_time : Option ℕ
  pub next_attempt : Option ℕ
  pub error_text : String

pub record ManagementBackup : Type 0 where
  pub creation_time : ℕ
  pub last_backup_name : String
  pub last_backup_time : Option ℕ
  pub next_attempt : Option ℕ
  pub error_text : String
  pub regions_last_backups : List RegionStatus

-- velerov1.BackupPhase
pub data BackupPhase : Type 0 where
  phase_new phase_in_progress phase_other : BackupPhase

-- What the creation of a backup returns; `meta_error` stands for the errors of isMetaError.
pub data Creation : Type 0 where
  created : Creation
  meta_error : String → Creation
  create_error : String → Creation

-- The client of a region, and whether it was loaded.
pub record RegionClient : Type 0 where
  pub region : String
  pub loaded : Bool

abbrev pub is_used : RegionClient → Bool
is_used c = not (c.region == "") && c.loaded

-- Changes the first entry of the region, or appends a new one.
abbrev pub upsert :
    String → (RegionStatus → RegionStatus) → RegionStatus → List RegionStatus → List RegionStatus
upsert region change fresh [] = fresh ∷ []
upsert region change fresh (s ∷ statuses) =
    let rest = upsert region change fresh statuses in
    if s.region == region then change s ∷ statuses else s ∷ rest

abbrev pub with_error : String → RegionStatus → RegionStatus
with_error message s = record s { error_text = message }

abbrev pub only_error : String → String → RegionStatus
only_error region message = record {
  region = region;
  last_backup_name = "";
  last_backup_time = none;
  next_attempt = none;
  error_text = message;
}

abbrev pub set_error : String → String → ManagementBackup → ManagementBackup
set_error region message b = if region == "" then record b { error_text = message } else record b {
  regions_last_backups =
      upsert region (with_error message) (only_error region message) b.regions_last_backups;
}

abbrev pub set_meta_error : String → String → ManagementBackup → ManagementBackup
set_meta_error region message b =
    set_error region (append_str "Probably Velero is not installed: " message) b

abbrev pub with_backup : (name : String) (now next : ℕ) → RegionStatus → RegionStatus
with_backup name now next s = record s {
  last_backup_name = name;
  last_backup_time = some now;
  next_attempt = some next;
  error_text = "";
}

abbrev pub only_backup : (region name : String) (now next : ℕ) → RegionStatus
only_backup region name now next = record {
  region = region;
  last_backup_name = name;
  last_backup_time = some now;
  next_attempt = some next;
  error_text = "";
}

-- The entry of a region whose backup was created.
abbrev pub record_region :
    (region name : String) (now next : ℕ) → ManagementBackup → ManagementBackup
record_region region name now next b = record b {
  regions_last_backups =
      upsert region (with_backup name now next) (only_backup region name now next)
        b.regions_last_backups;
}

-- The first loop: whether a backup with a name exists.
abbrev pub any_backup_initiated : ManagementBackup → Bool
any_backup_initiated b =
    not (b.last_backup_name == "")
    || any (λ (s : RegionStatus). not (s.last_backup_name == "")) b.regions_last_backups

abbrev pub is_progressing : BackupPhase → Bool
is_progressing phase_new = true
is_progressing phase_in_progress = true
is_progressing phase_other = false

-- A list that fails counts as progressing.
abbrev pub cluster_progressing : Listed BackupPhase → Bool
cluster_progressing (list_failed e) = true
cluster_progressing (items phases) = any is_progressing phases

unfoldable pub are_any_backups_progressing :
    (list_backups : String → Listed BackupPhase) → List RegionClient → Bool
are_any_backups_progressing list_backups clients =
    cluster_progressing (list_backups "")
    || any (λ c. is_used c && cluster_progressing (list_backups c.region)) clients

abbrev pub last_time : ManagementBackup → ℕ
last_time b = elim b.last_backup_time [ none ↦ b.creation_time | some t ↦ t ]

-- Whether a backup is due, and the next attempt.
unfoldable pub get_next_attempt_time : (schedule : ℕ → ℕ) (now : ℕ) → ManagementBackup → Bool × ℕ
get_next_attempt_time schedule now b =
    if ltb now (schedule (last_time b)) then (false, schedule (last_time b)) else (true, now)

-- How a call ended: the backups that were requested, by region and name, the object, an error, and
-- whether the statuses of the backups are brought up to date next.
pub record Handled : Type 0 where
  pub requests : List (String × String)
  pub backup : ManagementBackup
  pub failure : Option String
  pub refresh : Bool

-- The next attempt of the object and of all its regions.
abbrev pub set_next_attempt : ℕ → ManagementBackup → ManagementBackup
set_next_attempt next b = record b {
  next_attempt = some next;
  regions_last_backups =
      map (λ (s : RegionStatus). record s { next_attempt = some next }) b.regions_last_backups;
}

abbrev pub is_next : ℕ → Option ℕ → Bool
is_next next none = false
is_next next (some t) = t == next

-- How waiting ends, after the update of the status.
abbrev pub after_update : Option String → ManagementBackup → Handled
after_update (some e) b = record { requests = []; backup = b; failure = some e; refresh = false }
after_update none b = record {
  requests = [];
  backup = b;
  failure = none;
  refresh = any_backup_initiated b;
}

-- The requests that were made, and the object.
pub record Created : Type 0 where
  pub requests : List (String × String)
  pub backup : ManagementBackup

-- `now` is when backups are created, and `name_for` gives their names at that time.
module _ (create : (region name : String) → Creation) (name_for : String → String)
    (update : ManagementBackup → Option String) (now : ℕ) where
  -- What the creation in a region leaves.
  abbrev pub after_region : (next : ℕ) → String → Creation → ManagementBackup → ManagementBackup
  after_region next region created b = record_region region (name_for region) now next b
  after_region next region (meta_error e) b = set_meta_error region e b
  after_region next region (create_error e) b = set_error region e b

  -- The loop over the regions, with the requests made so far.
  abbrev pub create_regional : (next : ℕ) → List RegionClient → Created → Created
  create_regional next [] b = b
  create_regional next (c ∷ clients) b =
      let done = create_regional next clients (record {
        requests = b.requests ++ ((c.region, name_for c.region) ∷ []);
        backup = after_region next c.region (create c.region (name_for c.region)) b.backup;
      }) in
      let skipped = create_regional next clients b in if is_used c then done else skipped

  abbrev pub saved : Created → Handled
  saved c = record {
    requests = c.requests;
    backup = c.backup;
    failure = update c.backup;
    refresh = false;
  }

  abbrev pub after_management :
      (next : ℕ) → Creation → List RegionClient → ManagementBackup → Handled
  after_management next (create_error e) clients b = record {
    requests = ("", name_for "") ∷ [];
    backup = b;
    failure = some e;
    refresh = false;
  }
  after_management next (meta_error e) clients b =
      saved (record { requests = ("", name_for "") ∷ []; backup = set_meta_error "" e b })
  after_management next created clients b = saved (
      create_regional next clients (record {
        requests = ("", name_for "") ∷ [];
        backup = record b {
          last_backup_name = name_for "";
          last_backup_time = some now;
          next_attempt = some next;
          error_text = "";
        };
      }))

  unfoldable pub create_all_scheduled_backups :
      (next : ℕ) → List RegionClient → ManagementBackup → Handled
  create_all_scheduled_backups next clients b =
      after_management next (create "" (name_for "")) clients b

  -- Nothing is requested; the next attempt is written if it differs.
  abbrev pub wait_for_next : (next : ℕ) → ManagementBackup → Handled
  wait_for_next next b =
      let moved = set_next_attempt next b in
      let kept : Handled = record {
        requests = [];
        backup = b;
        failure = none;
        refresh = any_backup_initiated b;
      } in
      let written = after_update (update moved) moved in
      if is_next next b.next_attempt then kept else written

  unfoldable pub handle_scheduled_backup :
      (schedule : Resolved (ℕ → ℕ)) (asked : ℕ) (list_backups : String → Listed BackupPhase)
      → List RegionClient
      → ManagementBackup
      → Handled
  unfolding create_all_scheduled_backups
  handle_scheduled_backup (error e) asked list_backups clients b = record {
    requests = [];
    backup = b;
    failure = some e;
    refresh = false;
  }
  handle_scheduled_backup (ok schedule) asked list_backups clients b =
      let (is_due, next) = get_next_attempt_time schedule asked b in
      let create_now = create_all_scheduled_backups next clients b in
      let wait = wait_for_next next b in
      if is_due && not (are_any_backups_progressing list_backups clients) then create_now else wait

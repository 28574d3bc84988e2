-- ===== src/Backup/Requests.antt =====
-- When backups are requested, and which: `handleScheduledBackup`,
-- internal/controller/backup/schedule.go.
use kcm.Prelude.{
  ◌||◌, ltb→lt, true≢false, any, Memᴰ, ◌↔◌, mem→any, any→mem, ℕ, ◌≤◌, ◌≡◌, refl, sym, ◌∙◌, ap, inl,
  inr, Bool, true, false, not, ◌&&◌, List, [], ◌∷◌, ◌++◌, map, Option, none, some, String,
  Bool-cases, arith, ltb, filter_by, append-nil, append_assoc, ok,
}
use kcm.Api.{Listed, items, list_failed}
use kcm.Backup.{
  ManagementBackup, BackupPhase, Creation, created, meta_error, create_error, RegionClient, is_used,
  are_any_backups_progressing, get_next_attempt_time, Created, create_regional, after_management,
  create_all_scheduled_backups, is_next, set_next_attempt, after_update, last_time,
  cluster_progressing, is_progressing, wait_for_next, handle_scheduled_backup,
}

module _ (create : (region name : String) → Creation) (name_for : String → String)
    (update : ManagementBackup → Option String) (now : ℕ) where
  -- One request for each region whose client is used.
  abbrev pub requests_for : List RegionClient → List (String × String)
  requests_for clients =
      map (λ (c : RegionClient). (c.region, name_for c.region)) (filter_by is_used clients)

  create_regional-requests :
      (next : ℕ) (clients : List RegionClient) (b : Created)
      → (create_regional create name_for update now next clients b).requests
        ≡ b.requests ++ requests_for clients
  create_regional-requests next [] b = sym (append-nil b.requests)
  create_regional-requests next (c ∷ clients) b = elim (Bool-cases (is_used c)) [
    | inl t ↦ rw t (
        create_regional-requests next clients _
        ∙ append_assoc b.requests ((c.region, name_for c.region) ∷ []) (requests_for clients))
    | inr f ↦ rw f (create_regional-requests next clients b)
  ]

  -- The requests by how the creation in the management cluster ended.
  abbrev pub requests_by : Creation → List RegionClient → List (String × String)
  requests_by created clients = ("", name_for "") ∷ requests_for clients
  requests_by (meta_error e) clients = ("", name_for "") ∷ []
  requests_by (create_error e) clients = ("", name_for "") ∷ []

  after_management-requests :
      (next : ℕ) (o : Creation) (clients : List RegionClient) (b : ManagementBackup)
      → (after_management create name_for update now next o clients b).requests
        ≡ requests_by o clients
  after_management-requests next created clients b = create_regional-requests next clients _
  after_management-requests next (meta_error e) clients b = refl
  after_management-requests next (create_error e) clients b = refl

  after_update-requests :
      (o : Option String) (b : ManagementBackup) → (after_update o b).requests ≡ []
  after_update-requests none b = refl
  after_update-requests (some e) b = refl

  wait-requests :
      (next : ℕ) (b : ManagementBackup)
      → (wait_for_next create name_for update now next b).requests ≡ []
  wait-requests next b = elim (Bool-cases (is_next next b.next_attempt)) [
    | inl t ↦ rw t refl
    | inr f ↦
        rw f (after_update-requests (update (set_next_attempt next b)) (set_next_attempt next b))
  ]

  -- The cluster lists its backups, and none of them is in progress.
  abbrev pub IsQuiet : (String → Listed BackupPhase) → String → Type 0
  IsQuiet list_backups region =
      (phases : List BackupPhase) × (list_backups region ≡ items phases)
      × (any is_progressing phases ≡ false)

  IsQuiet-iff :
      (list_backups : String → Listed BackupPhase) (region : String)
      → (cluster_progressing (list_backups region) ≡ false) ↔ IsQuiet list_backups region
  IsQuiet-iff list_backups region = go (list_backups region)
    where
      go :
          (l : Listed BackupPhase)
          → (cluster_progressing l ≡ false) ↔ (
              (phases : List BackupPhase) × (l ≡ items phases)
              × (any is_progressing phases ≡ false))
      go (list_failed e) = (λ h. absurd (true≢false h), λ h. cc h.1)
      go (items phases) =
          (λ h. (phases, refl, h), λ h. ap (any is_progressing) (items_same h.1) ∙ h.2)
        where
          items_same : {a b : List BackupPhase} → items a ≡ items b → a ≡ b
          items_same q = cc q

  -- A backup is due, and the management cluster and all used regions are quiet.
  abbrev pub MayCreate :
      (ℕ → ℕ) → ℕ → (String → Listed BackupPhase) → List RegionClient → ManagementBackup → Type 0
  MayCreate schedule asked list_backups clients b =
      (schedule (last_time b) ≤ asked)
      × IsQuiet list_backups ""
      × ((c : RegionClient) → Memᴰ c clients → is_used c ≡ true → IsQuiet list_backups c.region)

  MayCreate-iff :
      (schedule : ℕ → ℕ) (asked : ℕ) (list_backups : String → Listed BackupPhase)
      (clients : List RegionClient) (b : ManagementBackup)
      → ((get_next_attempt_time schedule asked b).0
            && not (are_any_backups_progressing list_backups clients)
          ≡ true)
        ↔ MayCreate schedule asked list_backups clients b
  unfolding get_next_attempt_time are_any_backups_progressing
  MayCreate-iff schedule asked list_backups clients b =
      elim (Bool-cases (ltb asked (schedule (last_time b)))) [
        | inl early ↦
            rw (early, get_next_attempt_time)
              (
                λ h. absurd (true≢false (sym h)),
                λ may. absurd (omega (arith, ltb→lt asked (schedule (last_time b)) early, may.0)),
              )
        | inr due ↦
            rw (due, get_next_attempt_time)
              (λ h. (ground arith, (all_quiet h).0, (all_quiet h).1), λ may. quiet_all may.1 may.2)
      ]
    where
      busy : RegionClient → Bool
      busy c = is_used c && cluster_progressing (list_backups c.region)

      all_quiet :
          not (
              cluster_progressing (list_backups "")
              || any (λ c. is_used c && cluster_progressing (list_backups c.region)) clients)
            ≡ true
          → IsQuiet list_backups ""
            × ((c : RegionClient)
                → Memᴰ c clients
                → is_used c ≡ true
                → IsQuiet list_backups c.region)
      all_quiet h = elim (Bool-cases (cluster_progressing (list_backups ""))) [
        | inl t ↦ cc (rw t at h)
        | inr f ↦ (
          (IsQuiet-iff list_backups "").0 f,
          λ c m used.
              (IsQuiet-iff list_backups c.region).0
                (elim (Bool-cases (cluster_progressing (list_backups c.region))) [
                  | inr quiet ↦ quiet
                  | inl t ↦ cc (rw (f, mem→any busy clients m (ground arith)) at h)
                ]),
        )
      ]

      quiet_all :
          IsQuiet list_backups ""
          → ((c : RegionClient) → Memᴰ c clients → is_used c ≡ true → IsQuiet list_backups c.region)
          → not (
              cluster_progressing (list_backups "")
              || any (λ c. is_used c && cluster_progressing (list_backups c.region)) clients)
            ≡ true
      quiet_all main regions =
          rw ((IsQuiet-iff list_backups "").1 main) (elim (Bool-cases (any busy clients)) [
            | inr f ↦ rw f refl
            | inl t ↦
                let (c, m, on) = any→mem busy clients t in
                let used : is_used c ≡ true = ground arith in
                let off = (IsQuiet-iff list_backups c.region).1 (regions c m used) in
                cc (rw (used, off) at on)
          ])

  -- Backups are requested only when one is due and the management cluster and each region with a
  -- loaded client list their backups without one in progress. Then the management cluster is asked
  -- first, and after it each such region once, in order, whatever became of the regions before;
  -- if the management cluster refuses, no region is asked.
  pub handle_scheduled_backup-requests :
      (schedule : ℕ → ℕ) (asked : ℕ) (list_backups : String → Listed BackupPhase)
      (clients : List RegionClient) (b : ManagementBackup)
      → (MayCreate schedule asked list_backups clients b
          → (handle_scheduled_backup create name_for update now
              (ok schedule)
              asked
              list_backups
              clients
              b).requests
            ≡ requests_by (create "" (name_for "")) clients)
        × (¬ MayCreate schedule asked list_backups clients b
            → (handle_scheduled_backup create name_for update now
                (ok schedule)
                asked
                list_backups
                clients
                b).requests
              ≡ [])
  unfolding handle_scheduled_backup create_all_scheduled_backups
  handle_scheduled_backup-requests schedule asked list_backups clients b =
      let decided = MayCreate-iff schedule asked list_backups clients b in
      elim (Bool-cases (
        (get_next_attempt_time schedule asked b).0
        && not (are_any_backups_progressing list_backups clients))) [
          | inl t ↦ rw t (
            λ may. after_management-requests _ (create "" (name_for "")) clients b,
            λ no_way. absurd (no_way (decided.0 t)),
          )
          | inr f ↦
              rw f
                (λ may. absurd (true≢false (sym (decided.1 may) ∙ f)), λ no_way. wait-requests _ b)
        ]

-- ===== src/Conditions.antt =====
-- The Ready condition of an object: internal/util/conditions/ready_condition.go. The times of a
-- condition are left out. `set_status_condition` is apimeta.SetStatusCondition, and `handle` the
-- argument that sorts a condition of status False into an error and a warning.
pub mod Ready
use kcm.Prelude.{
  ℕ, zero, suc, Bool, true, false, ◌&&◌, ◌||◌, List, [], ◌∷◌, Option, none, some, String,
  if◌then◌else◌, ◌==◌, string_eq, append_str, length,
}

-- metav1.ConditionStatus
pub data ConditionStatus : Type 0 where
  condition_true condition_false condition_unknown : ConditionStatus

-- metav1.Condition
pub record Condition : Type 0 where
  pub type : String
  pub status : ConditionStatus
  pub reason : String
  pub message : String
  pub observed_generation : ℕ

abbrev pub is_status_true : ConditionStatus → Bool
is_status_true condition_true = true
is_status_true _ = false

-- The first condition of a type that is true.
abbrev pub find_true : String → List Condition → Option Condition
find_true type [] = none
find_true type (c ∷ conditions) =
    let rest = find_true type conditions in
    if c.type == type && is_status_true c.status then some c else rest

-- strings.Join
abbrev pub join : String → List String → String
join separator [] = ""
join separator (m ∷ []) = m
join separator (m ∷ n ∷ messages) =
    append_str m (append_str separator (join separator (n ∷ messages)))

-- The messages that the loop over the conditions collects.
pub record Messages : Type 0 where
  pub errs : List String
  pub warnings : List String
  pub unknowns : List String

-- A message goes in front of those of the later conditions, unless it is empty.
abbrev pub with_message : String → List String → List String
with_message m messages = if m == "" then messages else m ∷ messages

module _ (handle : Condition → String × String) where
  abbrev pub by_status : Condition → ConditionStatus → Messages → Messages
  by_status c condition_true later = later
  by_status c condition_unknown later = record later { unknowns = c.message ∷ later.unknowns }
  by_status c condition_false later = record later {
    errs = with_message (handle c).0 later.errs;
    warnings = with_message (handle c).1 later.warnings;
  }

  abbrev pub sort_messages : List Condition → Messages
  sort_messages [] = record { errs = []; warnings = []; unknowns = [] }
  sort_messages (c ∷ conditions) =
      let later = sort_messages conditions in
      if c.type == "Ready" || c.type == "Deleting"
      then later
      else if c.type == "Paused"
      then (if is_status_true c.status && c.reason == "Paused"
          then record later { errs = c.message ∷ later.errs }
          else later)
      else by_status c c.status later

abbrev pub is_none : {A : Type 0} → List A → Bool
is_none [] = true
is_none (x ∷ xs) = false

unfoldable pub build_ready_condition :
    (errs warnings unknowns : List String) (total generation : ℕ) → Condition
build_ready_condition (e ∷ errs) warnings unknowns total generation = record {
  type = "Ready";
  status = condition_false;
  reason = "Failed";
  message = join ". " (e ∷ errs);
  observed_generation = generation;
}
build_ready_condition [] (w ∷ warnings) unknowns total generation = record {
  type = "Ready";
  status = condition_false;
  reason = "Progressing";
  message = join ". " (w ∷ warnings);
  observed_generation = generation;
}
build_ready_condition [] [] unknowns zero generation = record {
  type = "Ready";
  status = condition_unknown;
  reason = "Progressing";
  message = join ". " unknowns;
  observed_generation = generation;
}
build_ready_condition [] [] (u ∷ unknowns) (suc total) generation = record {
  type = "Ready";
  status = condition_unknown;
  reason = "Progressing";
  message = join ". " (u ∷ unknowns);
  observed_generation = generation;
}
build_ready_condition [] [] [] (suc total) generation = record {
  type = "Ready";
  status = condition_true;
  reason = "Succeeded";
  message = "Object is ready";
  observed_generation = generation;
}

module _ (handle : Condition → String × String) where
  -- The condition that is set.
  unfoldable pub ready_condition : List Condition → (generation : ℕ) → Condition
  unfolding build_ready_condition
  ready_condition conditions generation = elim (find_true "Deleting" conditions) [
    | some d ↦ record {
      type = "Ready";
      status = condition_false;
      reason = "Deleting";
      message = d.message;
      observed_generation = generation;
    }
    | none ↦
        build_ready_condition (sort_messages handle conditions).errs
          (sort_messages handle conditions).warnings (sort_messages handle conditions).unknowns
          (length conditions) generation
  ]

  unfoldable pub update_ready_condition :
      (set_status_condition : List Condition → Condition → List Condition)
      → List Condition
      → (generation : ℕ) → List Condition
  unfolding ready_condition
  update_ready_condition set_status_condition conditions generation =
      set_status_condition conditions (ready_condition conditions generation)

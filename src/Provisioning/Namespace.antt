-- ===== src/Provisioning/Namespace.antt =====
-- src/microReticulum/Provisioning/Namespace.h and Namespace.cpp: the class `Namespace`. A method
-- that calls a setter or a getter takes the state of the running program, and returns it if it can
-- change.
pub mod Drafts
pub mod Commit
use micro_reticulum.Prelude.{
  ℕ, List, [], ◌∷◌, ◌++◌, Option, none, some, Bool, true, false, not, ◌&&◌, ◌||◌, if◌then◌else◌,
  ◌==◌, length,
}
use micro_reticulum.Bytes.{Bytes, same}
use micro_reticulum.Provisioning.Index.{Map, lookup, erase, assign, find}
use micro_reticulum.Provisioning.Value.{Double, Value, none_value, value_eq}
use micro_reticulum.Provisioning.Field.{
  Field, has_flag, validate, ff_live_apply, ff_reboot_required, ff_read_only, ff_write_only,
}

-- Without the commit hook and the schema hash, which these methods do not touch.
pub record Namespace (F R : Type 0) : Type 0 where
  pub id : ℕ
  pub name : Bytes
  pub parent_id : ℕ
  pub fields : List (Field F R)
  pub id_index : Map ℕ
  pub name_index : List (Bytes × ℕ)
  pub working_map : Map (Value F)
  pub draft_map : Map (Value F)
  pub dirty_for_persist : Bool

pub data CommitOutcome : Type 0 where
  no_change applied_live applied_reboot invalid_value unknown read_only setter_failed :
      CommitOutcome

-- A new namespace, without fields.
abbrev pub new_namespace : {F R : Type 0} → ℕ → Bytes → ℕ → Namespace F R
new_namespace id name parent_id = record {
  id = id;
  name = name;
  parent_id = parent_id;
  fields = [];
  id_index = [];
  name_index = [];
  working_map = [];
  draft_map = [];
  dirty_for_persist = false;
}

unfoldable pub lookup_name : Bytes → List (Bytes × ℕ) → Option ℕ
unfolding same
lookup_name n [] = none
lookup_name n ((m, i) ∷ rest) = if same n m then some i else lookup_name n rest

abbrev pub has : {A : Type 0} → Option A → Bool
has none = false
has (some a) = true

abbrev pub is_empty : Bytes → Bool
is_empty [] = true
is_empty (x ∷ xs) = false

module _ {F R : Type 0} where
  unfoldable pub find_field : Namespace F R → ℕ → Option (Field F R)
  unfolding find
  find_field ns field_id = find ns.id_index ns.fields field_id

  abbrev initial : R → Field F R → Value F
  initial r field = elim field.getter [ none ↦ field.default_value | some getter ↦ getter r ]

  unfoldable pub add_field : Namespace F R → R → Field F R → Namespace F R × Bool
  unfolding lookup lookup_name assign
  add_field ns r field =
      if has (lookup field.id ns.id_index)
      then (ns, false)
      else if not (is_empty field.name) && has (lookup_name field.name ns.name_index)
      then (ns, false)
      else (
        record ns {
          fields = ns.fields ++ field ∷ [];
          id_index = assign field.id (length ns.fields) ns.id_index;
          name_index =
              if not (is_empty field.name)
              then (field.name, length ns.fields) ∷ ns.name_index
              else ns.name_index;
          working_map = assign field.id (initial r field) ns.working_map;
        },
        true,
      )

  abbrev pub draft : Namespace F R → ℕ → Option (Value F)
  draft ns field_id = lookup field_id ns.draft_map

  unfoldable pub clear_draft : Namespace F R → ℕ → Namespace F R
  unfolding erase
  clear_draft ns field_id = record ns { draft_map = erase field_id ns.draft_map }

  abbrev pub clear_drafts : Namespace F R → Namespace F R
  clear_drafts ns = record ns { draft_map = [] }

  abbrev requires_reboot : Option (Field F R) → Bool
  requires_reboot none = false
  requires_reboot (some field) = has_flag field ff_reboot_required

  pub reboot_loop : Namespace F R → Map (Value F) → Bool
  unfolding find_field
  reboot_loop ns [] = false
  reboot_loop ns ((i, v) ∷ m) = requires_reboot (find_field ns i) || reboot_loop ns m

  unfoldable pub draft_has_reboot : Namespace F R → Bool
  unfolding reboot_loop
  draft_has_reboot ns = reboot_loop ns ns.draft_map

  unfoldable pub put_working : Namespace F R → ℕ → Value F → Namespace F R
  unfolding assign
  put_working ns field_id v = record ns {
    working_map = assign field_id v ns.working_map;
    dirty_for_persist = true;
  }

  abbrev pub run_setter : Option (Value F → R → R × Bool) → Value F → R → R × Bool
  run_setter none v r = (r, true)
  run_setter (some setter) v r = setter v r

module _ {F R : Type 0} ⦃f : Double F⦄ where
  unfoldable pub working : Namespace F R → ℕ → Value F
  unfolding lookup
  working ns field_id = elim (lookup field_id ns.working_map) [ none ↦ none_value | some v ↦ v ]

  abbrev readable : Namespace F R → R → ℕ → Field F R → Value F
  readable ns r field_id field =
      if has_flag field ff_write_only
      then none_value
      else elim field.getter [ none ↦ working ns field_id | some getter ↦ getter r ]

  unfoldable pub effective : Namespace F R → R → ℕ → Value F
  unfolding find_field working
  effective ns r field_id = elim (find_field ns field_id) [
    | none ↦ none_value
    | some field ↦ readable ns r field_id field
  ]

  -- The state that a new draft is compared with.
  unfoldable pub current : Namespace F R → R → ℕ → Field F R → Value F
  unfolding working effective
  current ns r field_id field =
      if has_flag field ff_reboot_required then working ns field_id else effective ns r field_id

  abbrev pub put_draft : Namespace F R → ℕ → Value F → Namespace F R
  put_draft ns field_id v = record ns { draft_map = assign field_id v ns.draft_map }

  unfoldable pub draft_known : Namespace F R → R → ℕ → Value F → Field F R → Namespace F R × Bool
  unfolding validate current clear_draft value_eq assign
  draft_known ns r field_id v field =
      if has_flag field ff_read_only
      then (ns, false)
      else if not (validate field v)
      then (ns, false)
      else if not (has_flag field ff_write_only) && value_eq (current ns r field_id field) v
      then (clear_draft ns field_id, true)
      else (put_draft ns field_id v, true)

  unfoldable pub set_draft : Namespace F R → R → ℕ → Value F → Namespace F R × Bool
  unfolding find_field draft_known
  set_draft ns r field_id v = elim (find_field ns field_id) [
    | none ↦ (ns, false)
    | some field ↦ draft_known ns r field_id v field
  ]

  -- The end of `commit_one`: the setter of a command, or the value stored and then the setter.
  unfoldable pub apply :
      Namespace F R → R → ℕ → Value F → Field F R → Namespace F R × R × CommitOutcome
  unfolding put_working
  apply ns r field_id v field =
      let (after, done) = run_setter field.setter v r in
      let stored = put_working ns field_id v in
      if has_flag field ff_write_only
      then (ns, after, if done then applied_live else setter_failed)
      else if has_flag field ff_live_apply && has field.setter
      then (stored, after, if done then applied_live else setter_failed)
      else (stored, r, if has_flag field ff_reboot_required then applied_reboot else applied_live)

  unfoldable pub commit_known :
      Namespace F R → R → ℕ → Field F R → Option (Value F) → Namespace F R × R × CommitOutcome
  unfolding validate clear_draft apply
  commit_known ns r field_id field none = (ns, r, no_change)
  commit_known ns r field_id field (some v) =
      if has_flag field ff_read_only
      then (clear_draft ns field_id, r, read_only)
      else if not (validate field v)
      then (ns, r, invalid_value)
      else apply (clear_draft ns field_id) r field_id v field

  unfoldable pub commit_one : Namespace F R → R → ℕ → Namespace F R × R × CommitOutcome
  unfolding find_field commit_known lookup
  commit_one ns r field_id = elim (find_field ns field_id) [
    | none ↦ (ns, r, unknown)
    | some field ↦ commit_known ns r field_id field (draft ns field_id)
  ]

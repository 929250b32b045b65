-- ===== src/Provisioning/Registry.antt =====
-- src/microReticulum/Provisioning/Registry.h and Registry.cpp: the class `Registry`, namespaces in
-- a tree of parents.
pub mod Walk
pub mod Forest
use micro_reticulum.Prelude.{
  ℕ, zero, suc, List, [], ◌∷◌, ◌++◌, Option, none, some, Bool, true, false, not, ◌&&◌,
  if◌then◌else◌, ◌==◌, length,
}
use micro_reticulum.Bytes.{Bytes}
use micro_reticulum.Provisioning.Index.{Map, lookup, assign, find}
use micro_reticulum.Provisioning.Namespace.{Namespace, new_namespace, has, is_empty, lookup_name}

pub record Registry (F R : Type 0) : Type 0 where
  pub namespaces : List (Namespace F R)
  pub id_index : Map ℕ
  pub name_index : List (Bytes × ℕ)

-- `Registry()`, and what `clear` leaves.
abbrev pub new_registry : {F R : Type 0} → Registry F R
new_registry = record { namespaces = []; id_index = []; name_index = [] }

module _ {F R : Type 0} where
  unfoldable pub find_namespace : Registry F R → ℕ → Option (Namespace F R)
  unfolding find
  find_namespace reg id = find reg.id_index reg.namespaces id

  -- The walk up the parents: it refuses at `id` and at a parent that is not there, and ends at 0.
  -- `none` is the end of the fuel.
  unfoldable pub parent_walk : ℕ → Registry F R → ℕ → ℕ → Option Bool
  unfolding find_namespace
  parent_walk zero reg id hop = none
  parent_walk (suc fuel) reg id hop =
      let up : Option Bool = elim (find_namespace reg hop) [
        | none ↦ some false
        | some parent ↦ parent_walk fuel reg id parent.parent_id
      ] in
      if hop == 0 then some true else if hop == id then some false else up

  unfoldable pub push_namespace : Registry F R → ℕ → Bytes → ℕ → Registry F R
  unfolding assign
  push_namespace reg id name parent_id = record {
    namespaces = reg.namespaces ++ new_namespace id name parent_id ∷ [];
    id_index = assign id (length reg.namespaces) reg.id_index;
    name_index =
        if not (is_empty name) && parent_id == 0
        then (name, length reg.namespaces) ∷ reg.name_index
        else reg.name_index;
  }

  -- The end of `add_namespace`, after the walk.
  abbrev pub admit : Registry F R → ℕ → Bytes → ℕ → Option Bool → Option (Registry F R × Bool)
  admit reg id name parent_id none = none
  admit reg id name parent_id (some true) = some (push_namespace reg id name parent_id, true)
  admit reg id name parent_id (some false) = some (reg, false)

  unfoldable pub add_namespace : Registry F R → ℕ → Bytes → ℕ → Option (Registry F R × Bool)
  unfolding lookup lookup_name parent_walk push_namespace
  add_namespace reg id name parent_id =
      if has (lookup id reg.id_index)
      then some (reg, false)
      else if not (is_empty name) && parent_id == 0 && has (lookup_name name reg.name_index)
      then some (reg, false)
      else admit reg id name parent_id (parent_walk (suc (length reg.namespaces)) reg id parent_id)

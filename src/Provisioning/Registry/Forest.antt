-- ===== src/Provisioning/Registry/Forest.antt =====
-- src/microReticulum/Provisioning/Registry.cpp, `add_namespace`: sequences of calls, and the tree
-- of parents that they build.
use micro_reticulum.Prelude.{
  ℕ, suc, ◌≡◌, ◌⊎◌, refl, sym, subst, ap, inl, inr, List, [], ◌∷◌, ◌++◌, Option, none, some, Bool,
  true, false, not, ◌&&◌, ◌==◌, ==_iff, length, get_elem?, Bool-cases, Option-cases, arith,
}
use micro_reticulum.Bytes.{Bytes}
use micro_reticulum.Provisioning.Index.{
  lookup, IsIndex-nil, IsIndex-append, get_elem?_below, get_elem?-append,
}
use micro_reticulum.Provisioning.Namespace.{Namespace, new_namespace, has, is_empty, lookup_name}
use micro_reticulum.Provisioning.Registry.{
  Registry, new_registry, parent_walk, push_namespace, admit, add_namespace,
}
use micro_reticulum.Provisioning.Registry.Walk.{
  Before, IsForest, parent_walk_total, parent_walk_found,
}

module _ {F R : Type 0} where
  Before-push_namespace :
      (reg : Registry F R) (id : ℕ) (name : Bytes) (parent_id i k : ℕ)
      → Before reg i k
      → Before (push_namespace reg id name parent_id) i k
  unfolding push_namespace
  Before-push_namespace reg id name parent_id i k p =
      let below = get_elem?_below p.place reg.namespaces p.parent p.there in
      let not_last : p.place == length reg.namespaces ≡ false = ground (arith, below) in
      record {
        place = p.place;
        parent = p.parent;
        there =
            rw (get_elem?-append p.place reg.namespaces (new_namespace id name parent_id), not_last)
              p.there;
        named = p.named;
        earlier = p.earlier;
      }

  push_namespace-IsForest :
      (reg : Registry F R) (id : ℕ) (name : Bytes) (parent_id : ℕ)
      → IsForest reg
      → lookup id reg.id_index ≡ none
      → (parent_id ≡ 0) ⊎ Before reg (length reg.namespaces) parent_id
      → IsForest (push_namespace reg id name parent_id)
  unfolding push_namespace
  push_namespace-IsForest reg id name parent_id w new above = record {
    indexed = IsIndex-append Namespace.id reg.namespaces reg.id_index w.indexed child new;
    parents = λ i ns h. elim (Bool-cases (i == length reg.namespaces)) [
      | inl last ↦
          subst (λ n. (n.parent_id ≡ 0) ⊎ Before after i n.parent_id) (is_child i ns last h)
            (placed i last above)
      | inr old ↦ kept i (w.parents i ns (rw (get_elem?-append i reg.namespaces child, old) at h))
    ];
  }
    where
      child : Namespace F R
      child = new_namespace id name parent_id

      after : Registry F R
      after = push_namespace reg id name parent_id

      is_child :
          (i : ℕ) (ns : Namespace F R)
          → i == length reg.namespaces ≡ true
          → get_elem? (reg.namespaces ++ child ∷ []) i ≡ some ns
          → child ≡ ns
      is_child i ns last h =
          ap (λ o. elim o [ none ↦ child | some x ↦ x ])
            (rw (get_elem?-append i reg.namespaces child, last) at h)

      kept : {k : ℕ} (i : ℕ) → (k ≡ 0) ⊎ Before reg i k → (k ≡ 0) ⊎ Before after i k
      kept i (inl top) = inl top
      kept i (inr p) = inr (Before-push_namespace reg id name parent_id i _ p)

      placed :
          (i : ℕ)
          → i == length reg.namespaces ≡ true
          → (parent_id ≡ 0) ⊎ Before reg (length reg.namespaces) parent_id
          → (parent_id ≡ 0) ⊎ Before after i parent_id
      placed i last a =
          subst (λ j. (parent_id ≡ 0) ⊎ Before after j parent_id)
            (sym ((==_iff i (length reg.namespaces)).0 last)) (kept (length reg.namespaces) a)

  admit-IsForest :
      (reg : Registry F R) (id : ℕ) (name : Bytes) (parent_id : ℕ)
      → IsForest reg
      → lookup id reg.id_index ≡ none
      → (after : Registry F R) × (b : Bool) × (admit reg id name parent_id
            (parent_walk (suc (length reg.namespaces)) reg id parent_id)
          ≡ some (after, b))
        × IsForest after
  admit-IsForest reg id name parent_id w new = go (parent_walk_total reg id parent_id w)
    where
      walked : Option Bool
      walked = parent_walk (suc (length reg.namespaces)) reg id parent_id

      go :
          (b : Bool) × (walked ≡ some b)
          → (after : Registry F R) × (b : Bool) × (admit reg id name parent_id walked
              ≡ some (after, b))
            × IsForest after
      go (true, e) = (
        push_namespace reg id name parent_id,
        true,
        ap (admit reg id name parent_id) e,
        push_namespace-IsForest reg id name parent_id w new
            (parent_walk_found (length reg.namespaces) reg id parent_id w e),
      )
      go (false, e) = (reg, false, ap (admit reg id name parent_id) e, w)

  -- In a forest `add_namespace` ends, and leaves a forest.
  add_namespace-IsForest :
      (reg : Registry F R) (id : ℕ) (name : Bytes) (parent_id : ℕ)
      → IsForest reg
      → (after : Registry F R) × (b : Bool) × (add_namespace reg id name parent_id
          ≡ some (after, b))
        × IsForest after
  unfolding add_namespace
  add_namespace-IsForest reg id name parent_id w = elim (Option-cases (lookup id reg.id_index)) [
    | inr (i, e) ↦ (reg, false, rw (add_namespace, e) refl, w)
    | inl e ↦
        elim (Bool-cases
          (not (is_empty name) && parent_id == 0 && has (lookup_name name reg.name_index))) [
            | inl named ↦ (reg, false, rw (add_namespace, e, named) refl, w)
            | inr fresh ↦
                let (after, b, h, forest) = admit-IsForest reg id name parent_id w e in
                (after, b, rw (add_namespace, e, fresh) h, forest)
          ]
  ]

  -- A sequence of calls of `add_namespace`, whatever each answers.
  pub run : Registry F R → List (ℕ × Bytes × ℕ) → Option (Registry F R)
  unfolding add_namespace
  run reg [] = some reg
  run reg ((id, name, parent_id) ∷ more) = elim (add_namespace reg id name parent_id) [
    | none ↦ none
    | some (after, b) ↦ run after more
  ]

  -- From a forest, as a new registry is one, any sequence of calls of `add_namespace` ends, no walk
  -- up the parents going round in a circle; and then too every namespace is a root or has its
  -- parent before it.
  pub run-IsForest :
      (reg : Registry F R) (calls : List (ℕ × Bytes × ℕ))
      → IsForest reg
      → (after : Registry F R) × (run reg calls ≡ some after) × IsForest after
  unfolding run
  run-IsForest reg [] w = (reg, refl, w)
  run-IsForest reg ((id, name, parent_id) ∷ more) w =
      let (mid, b, e, forest) = add_namespace-IsForest reg id name parent_id w in
      let (after, f, done) = run-IsForest mid more forest in (after, rw (run, e) f, done)

  pub new_registry-IsForest : IsForest {F = F} {R = R} new_registry
  new_registry-IsForest = record {
    indexed = IsIndex-nil Namespace.id;
    parents = λ i ns h. absurd cc;
  }

-- ===== src/Provisioning/Registry/Walk.antt =====
-- src/microReticulum/Provisioning/Registry.cpp, `add_namespace`: the walk up the parents.
use micro_reticulum.Prelude.{
  ℕ, zero, suc, ◌<◌, ◌≡◌, ◌⊎◌, refl, sym, subst, ap, ◌∙◌, inl, inr, none, some, Bool, true, false,
  ◌==◌, ==_iff, length, get_elem?, Bool-cases, Option-cases, arith,
}
use micro_reticulum.Provisioning.Index.{lookup, find, IsIndex, get_elem?_below}
use micro_reticulum.Provisioning.Namespace.{Namespace}
use micro_reticulum.Provisioning.Registry.{Registry, find_namespace, parent_walk}

module _ {F R : Type 0} where
  -- A parent that stands before a position.
  pub record Before (reg : Registry F R) (i id : ℕ) : Type 0 where
    pub place : ℕ
    pub parent : Namespace F R
    pub there : get_elem? reg.namespaces place ≡ some parent
    pub named : parent.id ≡ id
    pub earlier : place < i

  -- Each namespace is a root or has its parent before it.
  pub record IsForest (reg : Registry F R) : Type 0 where
    pub indexed : IsIndex Namespace.id reg.namespaces reg.id_index
    pub parents :
        (i : ℕ) (ns : Namespace F R)
        → get_elem? reg.namespaces i ≡ some ns
        → (ns.parent_id ≡ 0) ⊎ Before reg i ns.parent_id

  find_there :
      (reg : Registry F R) (i : ℕ) (ns : Namespace F R)
      → IsForest reg
      → get_elem? reg.namespaces i ≡ some ns
      → find_namespace reg ns.id ≡ some ns
  unfolding find_namespace find
  find_there reg i ns w h = rw (find_namespace, find, w.indexed.listed i ns h) h

  -- From a namespace at a position, that much fuel is enough.
  parent_walk_ends :
      (n : ℕ) (reg : Registry F R) (id i : ℕ) (ns : Namespace F R)
      → IsForest reg
      → get_elem? reg.namespaces i ≡ some ns
      → i < n
      → (b : Bool) × (parent_walk (suc n) reg id ns.id ≡ some b)
  unfolding parent_walk
  parent_walk_ends zero reg id i ns w h few = absurd (omega arith)
  parent_walk_ends (suc n) reg id i ns w h few = elim (Bool-cases (ns.id == 0)) [
    | inl root ↦ (true, rw root refl)
    | inr inner ↦ elim (Bool-cases (ns.id == id)) [
      | inl same ↦ (false, rw (inner, same) refl)
      | inr other ↦ elim (w.parents i ns h) [
        | inl top ↦ (true, rw (inner, other, find_there reg i ns w h, top) refl)
        | inr p ↦
            let (b, e) =
              parent_walk_ends n reg id p.place p.parent w p.there
                (let k = p.earlier in omega arith) in
            (
              b,
              rw (inner, other, find_there reg i ns w h)
                  (subst (λ k. parent_walk (suc n) reg id k ≡ some b) p.named e),
            )
      ]
    ]
  ]

  found_there :
      (reg : Registry F R) (k : ℕ) (ns : Namespace F R)
      → IsForest reg
      → find_namespace reg k ≡ some ns
      → (i : ℕ) × (get_elem? reg.namespaces i ≡ some ns) × (ns.id ≡ k)
  unfolding find_namespace find
  found_there reg k ns w h = elim (Option-cases (lookup k reg.id_index)) [
    | inl e ↦ absurd (cc (rw (find_namespace, find, e) at h))
    | inr (i, e) ↦
        let (a, g, named) = w.indexed.found k i e in
        let same : some a ≡ some ns = sym g ∙ (rw (find_namespace, find, e) at h) in
        let eq : a ≡ ns = ap (λ o. elim o [ none ↦ a | some x ↦ x ]) same in
        (i, g ∙ same, ap Namespace.id (sym eq) ∙ named)
  ]

  -- The walk of `add_namespace` ends, wherever it starts.
  pub parent_walk_total :
      (reg : Registry F R) (id hop : ℕ)
      → IsForest reg
      → (b : Bool) × (parent_walk (suc (length reg.namespaces)) reg id hop ≡ some b)
  unfolding parent_walk
  parent_walk_total reg id hop w = elim (Option-cases (find_namespace reg hop)) [
    | inl e ↦ elim (Bool-cases (hop == 0)) [
      | inl root ↦ (true, rw root refl)
      | inr inner ↦ elim (Bool-cases (hop == id)) [
        | inl same ↦ (false, rw (inner, same) refl)
        | inr other ↦ (false, rw (inner, other, e) refl)
      ]
    ]
    | inr (ns, e) ↦
        let (i, g, named) = found_there reg hop ns w e in
        let (b, ends) =
          parent_walk_ends (length reg.namespaces) reg id i ns w g
            (get_elem?_below i reg.namespaces ns g) in
        (b, subst (λ k. parent_walk (suc (length reg.namespaces)) reg id k ≡ some b) named ends)
  ]

  -- A parent that the walk accepts is there.
  pub parent_walk_found :
      (n : ℕ) (reg : Registry F R) (id hop : ℕ)
      → IsForest reg
      → parent_walk (suc n) reg id hop ≡ some true
      → (hop ≡ 0) ⊎ Before reg (length reg.namespaces) hop
  unfolding parent_walk
  parent_walk_found n reg id hop w h = elim (Bool-cases (hop == 0)) [
    | inl root ↦ inl ((==_iff hop 0).0 root)
    | inr inner ↦ elim (Option-cases (find_namespace reg hop)) [
      | inl e ↦ elim (Bool-cases (hop == id)) [
        | inl same ↦ absurd (cc (rw (parent_walk, inner, same) at h))
        | inr other ↦ absurd (cc (rw (parent_walk, inner, other, e) at h))
      ]
      | inr (ns, e) ↦
          let (i, g, named) = found_there reg hop ns w e in
          inr (record {
            place = i;
            parent = ns;
            there = g;
            named = named;
            earlier = get_elem?_below i reg.namespaces ns g;
          })
    ]
  ]

-- ===== src/Provisioning/Namespace/Drafts.antt =====
-- src/microReticulum/Provisioning/Namespace.cpp: which drafts a namespace may hold.
use micro_reticulum.Prelude.{
  ℕ, ◌≡◌, ◌⊎◌, refl, sym, subst, ap, inl, inr, List, Option, none, some, Bool, true, false, not,
  ◌&&◌, ◌==◌, ==_iff, Bool-cases, Option-cases,
}
use micro_reticulum.Provisioning.Index.{
  Map, lookup, erase, assign, lookup-erase, lookup-assign, IsIndex, IsIndex-append, IsIndex-nil,
  find_kept,
}
use micro_reticulum.Provisioning.Value.{Double, Value, value_eq}
use micro_reticulum.Provisioning.Field.{
  Field, has_flag, validate, ff_live_apply, ff_read_only, ff_write_only,
}
use micro_reticulum.Provisioning.Namespace.{
  Namespace, new_namespace, has, is_empty, lookup_name, find_field, add_field, draft, clear_draft,
  put_working, current, put_draft, draft_known, set_draft, apply, commit_known, commit_one,
}

has-none : {A : Type 0} (o : Option A) → has o ≡ false → o ≡ none
has-none none h = refl
has-none (some a) h = absurd cc

module _ {F R : Type 0} ⦃d : Double F⦄ where
  -- The field of a draft can be written, and takes the value.
  pub record Takes (ns : Namespace F R) (i : ℕ) (v : Value F) (field : Field F R) : Type 0 where
    pub known : find_field ns i ≡ some field
    pub writable : has_flag field ff_read_only ≡ false
    pub valid : validate field v ≡ true

  -- The fields are indexed by their ids, and every draft can be committed.
  pub record IsValid (ns : Namespace F R) : Type 0 where
    pub indexed : IsIndex Field.id ns.fields ns.id_index
    pub drafted :
        (i : ℕ) (v : Value F) → draft ns i ≡ some v → (field : Field F R) × Takes ns i v field

  pub new_namespace-IsValid :
      (id : ℕ) (name : List ℕ) (parent : ℕ) → IsValid (new_namespace id name parent)
  unfolding lookup
  new_namespace-IsValid id name parent = record {
    indexed = IsIndex-nil Field.id;
    drafted = λ i v h. absurd cc;
  }

  -- What a method that leaves the fields alone has to show of each draft.
  pub IsValid-drafts :
      (ns : Namespace F R) (m w : Map (Value F)) (dirty : Bool)
      → IsValid ns
      → ((i : ℕ) (v : Value F)
          → lookup i m ≡ some v
          → (draft ns i ≡ some v) ⊎ ((field : Field F R) × Takes ns i v field))
      → IsValid (record ns { draft_map = m; working_map = w; dirty_for_persist = dirty })
  unfolding find_field
  IsValid-drafts ns m w dirty h each = record {
    indexed = h.indexed;
    drafted = λ i v e. elim (each i v e) [
      | inl old ↦
          let (field, t) = h.drafted i v old in
          (field, record { known = t.known; writable = t.writable; valid = t.valid })
      | inr (field, t) ↦ (field, record { known = t.known; writable = t.writable; valid = t.valid })
    ];
  }

  pub clear_draft-IsValid : (ns : Namespace F R) (i : ℕ) → IsValid ns → IsValid (clear_draft ns i)
  unfolding clear_draft
  clear_draft-IsValid ns i h =
      IsValid-drafts ns (erase i ns.draft_map) ns.working_map ns.dirty_for_persist h
        (λ j v e. inl (kept j v e))
    where
      kept : (j : ℕ) (v : Value F) → lookup j (erase i ns.draft_map) ≡ some v → draft ns j ≡ some v
      kept j v e = elim (Bool-cases (j == i)) [
        | inl same ↦ absurd (cc (rw (lookup-erase j i ns.draft_map, same) at e))
        | inr other ↦ rw (lookup-erase j i ns.draft_map, other) at e
      ]

  put_draft-IsValid :
      (ns : Namespace F R) (i : ℕ) (v : Value F) (field : Field F R)
      → IsValid ns
      → Takes ns i v field
      → IsValid (put_draft ns i v)
  put_draft-IsValid ns i v field h t =
      IsValid-drafts ns (assign i v ns.draft_map) ns.working_map ns.dirty_for_persist h
        (λ j u e. each j u e)
    where
      each :
          (j : ℕ) (u : Value F)
          → lookup j (assign i v ns.draft_map) ≡ some u
          → (draft ns j ≡ some u) ⊎ ((field : Field F R) × Takes ns j u field)
      each j u e = elim (Bool-cases (j == i)) [
        | inl same ↦
            let now : some v ≡ some u = rw (lookup-assign j i v ns.draft_map, same) at e in
            let value : v ≡ u = ap (λ o. elim o [ none ↦ v | some x ↦ x ]) now in
            inr (
              field,
              subst (λ k. Takes ns k u field) (sym ((==_iff j i).0 same))
                  (subst (λ w. Takes ns i w field) value t),
            )
        | inr other ↦ inl (rw (lookup-assign j i v ns.draft_map, other) at e)
      ]

  pub put_working-IsValid :
      (ns : Namespace F R) (i : ℕ) (v : Value F) → IsValid ns → IsValid (put_working ns i v)
  unfolding put_working
  put_working-IsValid ns i v h =
      IsValid-drafts ns ns.draft_map (assign i v ns.working_map) true h (λ j u e. inl e)

  draft_known-IsValid :
      (ns : Namespace F R) (r : R) (i : ℕ) (v : Value F) (field : Field F R)
      → IsValid ns
      → find_field ns i ≡ some field
      → IsValid (draft_known ns r i v field).0
  unfolding draft_known
  draft_known-IsValid ns r i v field h e = elim (Bool-cases (has_flag field ff_read_only)) [
    | inl locked ↦ rw (draft_known, locked) h
    | inr free ↦ elim (Bool-cases (validate field v)) [
      | inr bad ↦ rw (draft_known, free, bad) h
      | inl good ↦
          elim (Bool-cases
            (not (has_flag field ff_write_only) && value_eq (current ns r i field) v)) [
              | inl equal ↦ rw (draft_known, free, good, equal) (clear_draft-IsValid ns i h)
              | inr new ↦
                  rw (draft_known, free, good, new)
                    (put_draft-IsValid ns i v field h
                      (record { known = e; writable = free; valid = good }))
            ]
    ]
  ]

  pub set_draft-IsValid :
      (ns : Namespace F R) (r : R) (i : ℕ) (v : Value F)
      → IsValid ns
      → IsValid (set_draft ns r i v).0
  unfolding set_draft
  set_draft-IsValid ns r i v h = elim (Option-cases (find_field ns i)) [
    | inl e ↦ rw (set_draft, e) h
    | inr (field, e) ↦ rw (set_draft, e) (draft_known-IsValid ns r i v field h e)
  ]

  apply-IsValid :
      (ns : Namespace F R) (r : R) (i : ℕ) (v : Value F) (field : Field F R)
      → IsValid ns
      → IsValid (apply ns r i v field).0
  unfolding apply
  apply-IsValid ns r i v field h = elim (Bool-cases (has_flag field ff_write_only)) [
    | inl once ↦ rw (apply, once) h
    | inr kept ↦ elim (Bool-cases (has_flag field ff_live_apply && has field.setter)) [
      | inl live ↦ rw (apply, kept, live) (put_working-IsValid ns i v h)
      | inr stored ↦ rw (apply, kept, stored) (put_working-IsValid ns i v h)
    ]
  ]

  commit_known-IsValid :
      (ns : Namespace F R) (r : R) (i : ℕ) (field : Field F R) (o : Option (Value F))
      → IsValid ns
      → IsValid (commit_known ns r i field o).0
  unfolding commit_known
  commit_known-IsValid ns r i field none h = h
  commit_known-IsValid ns r i field (some v) h = elim (Bool-cases (has_flag field ff_read_only)) [
    | inl locked ↦ rw (commit_known, locked) (clear_draft-IsValid ns i h)
    | inr free ↦ elim (Bool-cases (validate field v)) [
      | inr bad ↦ rw (commit_known, free, bad) h
      | inl good ↦
          rw (commit_known, free, good)
            (apply-IsValid (clear_draft ns i) r i v field (clear_draft-IsValid ns i h))
    ]
  ]

  pub commit_one-IsValid :
      (ns : Namespace F R) (r : R) (i : ℕ) → IsValid ns → IsValid (commit_one ns r i).0
  unfolding commit_one
  commit_one-IsValid ns r i h = elim (Option-cases (find_field ns i)) [
    | inl e ↦ rw (commit_one, e) h
    | inr (field, e) ↦ rw (commit_one, e) (commit_known-IsValid ns r i field (draft ns i) h)
  ]

  pub add_field-IsValid :
      (ns : Namespace F R) (r : R) (field : Field F R)
      → IsValid ns
      → IsValid (add_field ns r field).0
  unfolding add_field find_field
  add_field-IsValid ns r field h = elim (Bool-cases (has (lookup field.id ns.id_index))) [
    | inl taken ↦ rw (add_field, taken) h
    | inr free ↦
        elim (Bool-cases
          (not (is_empty field.name) && has (lookup_name field.name ns.name_index))) [
            | inl named ↦ rw (add_field, free, named) h
            | inr fresh ↦
                let new = has-none (lookup field.id ns.id_index) free in
                rw (add_field, free, fresh)
                  (record {
                    indexed = IsIndex-append Field.id ns.fields ns.id_index h.indexed field new;
                    drafted = λ i v e.
                        let (g, t) = h.drafted i v e in
                        (
                          g,
                          record {
                            known =
                                find_kept Field.id ns.fields ns.id_index h.indexed field g i new
                                  t.known;
                            writable = t.writable;
                            valid = t.valid;
                          },
                        );
                  })
          ]
  ]

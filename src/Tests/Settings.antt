-- ===== src/Tests/Settings.antt =====
-- src/microReticulum/Provisioning with a running program of one number, set by a level and raised
-- by a command.
use micro_reticulum.Prelude.{
  ℕ, suc, ◌+◌, ◌≡◌, refl, List, [], ◌∷◌, none, some, true, ltb, ◌==◌, ℤ, pos, negsuc,
}
use micro_reticulum.Bytes.{Bytes}
use micro_reticulum.Provisioning.Value.{Double, of_int, of_void, int_value}
use micro_reticulum.Provisioning.Field.{Field, Constraint, ff_live_apply, ff_write_only}
use micro_reticulum.Provisioning.Namespace.{new_namespace, find_field, draft, commit_one}
use micro_reticulum.Provisioning.Namespace.Commit.{Op, adds, drafts, run, IsApplied, run-IsApplied}
use micro_reticulum.Provisioning.Registry.{Registry, new_registry, add_namespace}
use micro_reticulum.Provisioning.Registry.Walk.{IsForest}
use micro_reticulum.Provisioning.Registry.Forest.{new_registry-IsForest, run-IsForest}

-- Whole numbers in place of floating-point ones.
instance whole : Double ℕ
whole = record { zero_double = 0; less = ltb; equal = ◌==◌ }

abbrev bounded : Constraint ℕ
bounded = record {
  has_range = true;
  imin = negsuc 4;
  imax = pos 20;
  fmin = 0;
  fmax = 0;
  max_len = 0;
  element_size = 0;
  max_count = 0;
  enum_values = [];
}

abbrev magnitude : ℤ → ℕ
magnitude (pos n) = n
magnitude (negsuc n) = suc n

abbrev level : Field ℕ ℕ
level = record {
  id = 3;
  name = 76 ∷ [];
  kind = of_int;
  flags = ff_live_apply;
  constraint = bounded;
  default_value = int_value (pos 1);
  setter = some (λ v r. (magnitude v.i, true));
  getter = some (λ r. int_value (pos r));
}

abbrev raise : Field ℕ ℕ
raise = record level {
  id = 4;
  name = 82 ∷ [];
  kind = of_void;
  flags = ff_live_apply + ff_write_only;
  setter = some (λ v r. (suc r, true));
  getter = none;
}

abbrev preparation : List (Op ℕ ℕ)
preparation = adds level ∷ adds raise ∷ drafts 3 (int_value (pos 9)) ∷ []

prepared : draft (run (new_namespace 7 [] 0) 5 preparation).0 3 ≡ some (int_value (pos 9))
unfolding run
prepared = refl

run-IsApplied_example :
    let (ns, now) = run (new_namespace 7 [] 0) 5 preparation in
    (field : Field ℕ ℕ) × (find_field ns 3 ≡ some field)
    × IsApplied 3 (int_value (pos 9)) field now (commit_one ns now 3)
run-IsApplied_example = run-IsApplied 7 [] 0 5 preparation 3 (int_value (pos 9)) prepared

-- A root, a child, the child's child, a child of nothing, and one that would be its own parent.
abbrev family : List (ℕ × Bytes × ℕ)
family = (1, 65 ∷ [], 0) ∷ (2, 66 ∷ [], 1) ∷ (3, 67 ∷ [], 2) ∷ (4, [], 9) ∷ (5, [], 5) ∷ []

run-IsForest_example :
    (after : Registry ℕ ℕ) × (micro_reticulum.Provisioning.Registry.Forest.run new_registry family
      ≡ some after)
    × IsForest after
run-IsForest_example = run-IsForest new_registry family new_registry-IsForest

-- ===== src/Provisioning/Namespace/Commit.antt =====
-- src/microReticulum/Provisioning/Namespace.cpp: sequences of calls, and what `commit_one` makes of
-- the drafts that they leave.
use micro_reticulum.Prelude.{
  ℕ, ◌≡◌, refl, ◌∙◌, inl, inr, List, [], ◌∷◌, none, some, Bool, true, false, ◌&&◌, ◌||◌,
  if◌then◌else◌, Bool-cases, arith,
}
use micro_reticulum.Provisioning.Index.{lookup, lookup-erase, lookup-assign}
use micro_reticulum.Provisioning.Value.{Double, Value}
use micro_reticulum.Provisioning.Field.{
  Field, has_flag, ff_live_apply, ff_reboot_required, ff_write_only,
}
use micro_reticulum.Provisioning.Namespace.{
  Namespace, new_namespace, CommitOutcome, applied_live, applied_reboot, setter_failed, has,
  find_field, add_field, draft, clear_draft, clear_drafts, put_working, run_setter, set_draft,
  apply, commit_known, commit_one,
}
use micro_reticulum.Provisioning.Namespace.Drafts.{
  Takes, IsValid, new_namespace-IsValid, IsValid-drafts, clear_draft-IsValid, put_working-IsValid,
  set_draft-IsValid, commit_one-IsValid, add_field-IsValid,
}

-- The methods that change a namespace.
pub data Op (F R : Type 0) : Type 0 where
  adds : Field F R → Op F R
  drafts puts : ℕ → Value F → Op F R
  clears commits : ℕ → Op F R
  clears_all : Op F R

-- The outcomes of a commit that was carried out.
pub data IsOutcome : CommitOutcome → Type 0 where
  live : IsOutcome applied_live
  reboot : IsOutcome applied_reboot
  failed : IsOutcome setter_failed

IsOutcome-if : (b : Bool) → IsOutcome (if b then applied_live else setter_failed)
IsOutcome-if true = live
IsOutcome-if false = failed

reboot_if : (b : Bool) → IsOutcome (if b then applied_reboot else applied_live)
reboot_if true = reboot
reboot_if false = live

failed_if : (b : Bool) → (if b then applied_live else setter_failed) ≡ setter_failed → b ≡ false
failed_if true e = cc
failed_if false e = refl

never_failed :
    (b c : Bool) → (if b then applied_reboot else applied_live) ≡ setter_failed → c ≡ false
never_failed true c e = cc
never_failed false c e = cc

module _ {F R : Type 0} ⦃d : Double F⦄ where
  -- One of them, with what it does to the running program.
  unfoldable pub step : Namespace F R → R → Op F R → Namespace F R × R
  unfolding add_field set_draft put_working clear_draft commit_one
  step ns r (adds field) = ((add_field ns r field).0, r)
  step ns r (drafts i v) = ((set_draft ns r i v).0, r)
  step ns r (puts i v) = (put_working ns i v, r)
  step ns r (clears i) = (clear_draft ns i, r)
  step ns r clears_all = (clear_drafts ns, r)
  step ns r (commits i) = let (u, after, outcome) = commit_one ns r i in (u, after)

  unfoldable pub run : Namespace F R → R → List (Op F R) → Namespace F R × R
  unfolding step
  run ns r [] = (ns, r)
  run ns r (o ∷ os) = let (u, after) = step ns r o in run u after os

  step-IsValid : (ns : Namespace F R) (r : R) (o : Op F R) → IsValid ns → IsValid (step ns r o).0
  unfolding step
  step-IsValid ns r (adds field) h = add_field-IsValid ns r field h
  step-IsValid ns r (drafts i v) h = set_draft-IsValid ns r i v h
  step-IsValid ns r (puts i v) h = put_working-IsValid ns i v h
  step-IsValid ns r (clears i) h = clear_draft-IsValid ns i h
  step-IsValid ns r clears_all h =
      IsValid-drafts ns [] ns.working_map ns.dirty_for_persist h
        (λ i v e. absurd (unfold lookup in cc))
  step-IsValid ns r (commits i) h = commit_one-IsValid ns r i h

  run-IsValid :
      (ns : Namespace F R) (r : R) (os : List (Op F R)) → IsValid ns → IsValid (run ns r os).0
  unfolding run
  run-IsValid ns r [] h = h
  run-IsValid ns r (o ∷ os) h =
      run-IsValid (step ns r o).0 (step ns r o).1 os (step-IsValid ns r o h)

  -- The setter is run for a command, and for a setting that is applied at once.
  abbrev runs_setter : Field F R → Bool
  runs_setter field =
      has_flag field ff_write_only || (has_flag field ff_live_apply && has field.setter)

  -- A value that was committed to a field, in the program `r`: the namespace has it, except for a
  -- command, the program is what the setter makes of it, where that is run, the commit fails where
  -- the setter does and only there, and the draft is gone.
  pub record IsApplied (i : ℕ) (v : Value F) (field : Field F R) (r : R)
      (x : Namespace F R × R × CommitOutcome) : Type 0 where
    pub stored : has_flag field ff_write_only ≡ false → lookup i x.0.working_map ≡ some v
    pub ran : runs_setter field ≡ true → x.1 ≡ (run_setter field.setter v r).0
    pub refused :
        runs_setter field ≡ true → (run_setter field.setter v r).1 ≡ false → x.2 ≡ setter_failed
    pub only_refused : x.2 ≡ setter_failed → (run_setter field.setter v r).1 ≡ false
    pub carried : IsOutcome x.2
    pub gone : draft x.0 i ≡ none

  apply-IsApplied :
      (ns : Namespace F R) (r : R) (i : ℕ) (v : Value F) (field : Field F R)
      → draft ns i ≡ none
      → IsApplied i v field r (apply ns r i v field)
  unfolding apply put_working
  apply-IsApplied ns r i v field taken =
      let done : Bool = (run_setter field.setter v r).1 in
      elim (Bool-cases (has_flag field ff_write_only)) [
        | inl once ↦
            rw (apply, once)
              (record {
                stored = λ e. absurd (cc (once, e));
                ran = λ e. refl;
                refused = λ e f. rw f refl;
                only_refused = failed_if done;
                carried = IsOutcome-if done;
                gone = taken;
              })
        | inr kept ↦ elim (Bool-cases (has_flag field ff_live_apply && has field.setter)) [
          | inl called ↦
              rw (apply, kept, called)
                (record {
                  stored = λ e. lookup-assign i i v ns.working_map ∙ ground arith;
                  ran = λ e. refl;
                  refused = λ e f. rw f refl;
                  only_refused = failed_if done;
                  carried = IsOutcome-if done;
                  gone = taken;
                })
          | inr quiet ↦
              rw (apply, kept, quiet)
                (record {
                  stored = λ e. lookup-assign i i v ns.working_map ∙ ground arith;
                  ran = λ e. absurd (cc (rw (kept, quiet) at e));
                  refused = λ e f. absurd (cc (rw (kept, quiet) at e));
                  only_refused = never_failed (has_flag field ff_reboot_required) done;
                  carried = reboot_if (has_flag field ff_reboot_required);
                  gone = taken;
                })
        ]
      ]

  commit_one-apply :
      (ns : Namespace F R) (r : R) (i : ℕ) (v : Value F) (field : Field F R)
      → Takes ns i v field
      → draft ns i ≡ some v
      → commit_one ns r i ≡ apply (clear_draft ns i) r i v field
  unfolding commit_one commit_known
  commit_one-apply ns r i v field t h =
      rw (commit_one, t.known, h, commit_known, t.writable, t.valid) refl

  draft-clear_draft : (ns : Namespace F R) (i : ℕ) → draft (clear_draft ns i) i ≡ none
  unfolding clear_draft
  draft-clear_draft ns i = lookup-erase i i ns.draft_map ∙ ground arith

  -- However a new namespace was filled and its drafts were made, a draft is that of a field, and
  -- its commit stores the value, except for a command. It runs the setter of a command, and that of
  -- a setting that is applied at once, on the program, fails exactly where that setter does, and
  -- takes the draft away.
  pub run-IsApplied :
      (id : ℕ) (name : List ℕ) (parent : ℕ) (r : R) (os : List (Op F R)) (i : ℕ) (v : Value F)
      → let (ns, now) = run (new_namespace id name parent) r os in
        draft ns i ≡ some v
        → (field : Field F R) × (find_field ns i ≡ some field)
          × IsApplied i v field now (commit_one ns now i)
  run-IsApplied id name parent r os i v h =
      let start = new_namespace id name parent in
      let ns = (run start r os).0 in
      let now = (run start r os).1 in
      let w = run-IsValid start r os (new_namespace-IsValid id name parent) in
      let (field, t) = w.drafted i v h in
      let done = apply-IsApplied (clear_draft ns i) now i v field (draft-clear_draft ns i) in
      (field, t.known, rw (commit_one-apply ns now i v field t h) done)

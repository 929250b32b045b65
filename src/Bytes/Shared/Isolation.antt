-- ===== src/Bytes/Shared/Isolation.antt =====
-- src/microReticulum/Bytes.h: what a call does to the values of all objects.
use micro_reticulum.Prelude.{
  take, take_all, replicate, length-append, length-take, length-replicate, append-nil, subst,
  fun_ext, ℕ_discrete, ℕ, ◌-◌, ◌≡◌, refl, sym, ◌∙◌, ap, ◌≢◌, inl, inr, List, [], ◌∷◌, ◌++◌, Option,
  none, some, Bool, true, false, ◌==◌, ==_iff, length, Bool-cases, arith,
}
use micro_reticulum.Bytes.Shared.{
  Store, update, buffer_value, value, exclusive_data, write_branch, write, assign_bytes, clear,
  assign_chunk, append_chunk, append_bytes, append_byte, resized, resize, is_empty, Call, assigns,
  appends, assigns_chunk, appends_chunk, appends_byte, resizes, clears, step, run,
}
use micro_reticulum.Bytes.Shared.Ownership.{
  SameElsewhere, IsOwned, clear-IsOwned, assign_bytes-IsOwned, Ready, is_empty-nil,
  exclusive_data-Ready,
}

-- A write to a buffer that is the object's own shows there and nowhere else.
pub write_branch-value :
    (s : Store) (o p q : ℕ) (f : List ℕ → List ℕ) (b : Option ℕ)
    → (b ≡ some p → q ≡ o)
    → q ≢ o
    → buffer_value (write_branch s (some p) f) b ≡ buffer_value s b
unfolding write_branch
write_branch-value s o p q f none h ne = refl
write_branch-value s o p q f (some r) h ne = elim (Bool-cases (r == p)) [
  | inl e ↦ absurd (ne (h (ap some ((==_iff r p).0 e))))
  | inr e ↦ rw e
]

-- `t` is `s` after the object has been given the value `c`.
pub record Writes (s t : Store) (o : ℕ) (c : List ℕ) : Type 0 where
  pub shows : value t o ≡ c
  pub elsewhere : SameElsewhere s t o
  pub owned : IsOwned t

pub write-Writes :
    (keep : Bool) (s t : Store) (o : ℕ) (f : List ℕ → List ℕ)
    → Ready keep s t o
    → Writes s (write t o f) o (f (value t o))
unfolding write write_branch
write-Writes keep s t o f r = rw r.held.at (record {
  shows = rw r.held.at (ground arith);
  elsewhere = λ q ne.
      write_branch-value t o r.pointer q f (t.objects q).buffer
        (λ e. r.owned.alone o q r.pointer r.held.at r.held.own e) ne
      ∙ r.elsewhere q ne;
  owned = record { alone = r.owned.alone; used = r.owned.used };
})

pub length-resized : (n : ℕ) (b : List ℕ) → length (resized n b) ≡ n
length-resized n b =
    rw (length-append (take n b) (replicate (n - length b) 0))
      (omega (arith, length-take n b, length-replicate (n - length b) (let z : ℕ = 0 in z)))

pub Writes-kept :
    (s : Store) (o : ℕ) (f : List ℕ → List ℕ)
    → IsOwned s
    → Writes s (write (exclusive_data true s o) o f) o (f (value s o))
Writes-kept s o f v =
    let r = exclusive_data-Ready true s o v in rw (r.kept refl) at (write-Writes true s _ o f r)

pub nil-append : (b : List ℕ) → is_empty b ≡ true → (a : List ℕ) → a ≡ a ++ b
nil-append b h a = rw (is_empty-nil b h) (sym (append-nil a))

pub assign_bytes-elsewhere : (s : Store) (o src : ℕ) → SameElsewhere s (assign_bytes s o src) o
unfolding assign_bytes
assign_bytes-elsewhere s o src q ne = elim (Bool-cases (q == o)) [
  | inl e ↦ absurd (ne ((==_iff q o).0 e))
  | inr e ↦ elim (Bool-cases (q == src)) [
    | inl h ↦ rw (e, h) (ap (λ k. value s k) (sym ((==_iff q src).0 h)))
    | inr h ↦ rw (e, h)
  ]
]

pub append_bytes-Writes :
    (s : Store) (o src : ℕ)
    → IsOwned s
    → Writes s (append_bytes s o src) o (value s o ++ value s src)
unfolding append_bytes
append_bytes-Writes s o src v = elim (Bool-cases (is_empty (value s src))) [
  | inl e ↦ rw e (record { shows = nil-append _ e _; elsewhere = λ q ne. refl; owned = v })
  | inr e ↦
      let r = exclusive_data-Ready true s o v in
      let same : value (exclusive_data true s o) src ≡ value s src = elim (ℕ_discrete src o) [
        | yes h ↦ rw h (r.kept refl)
        | no h ↦ r.elsewhere src h
      ] in
      rw (e, same) (Writes-kept s o (λ b. b ++ value s src) v)
]

-- The object that a call is made on, and its new value as a function of all the values before.
abbrev pub target : Call → ℕ
target (assigns o src) = o
target (appends o src) = o
target (assigns_chunk o c) = o
target (appends_chunk o c) = o
target (appends_byte o x) = o
target (resizes o n) = o
target (clears o) = o

abbrev pub result : (ℕ → List ℕ) → Call → List ℕ
result v (assigns o src) = v src
result v (appends o src) = v o ++ v src
result v (assigns_chunk o c) = c
result v (appends_chunk o c) = v o ++ c
result v (appends_byte o x) = v o ++ x ∷ []
result v (resizes o n) = resized n (v o)
result v (clears o) = []

pub resized_same : (b : List ℕ) → b ≡ resized (length b) b
resized_same b =
    let e : length b - length b ≡ 0 = omega arith in
    rw (e, take_all (length b) b (omega arith)) (sym (append-nil b))

pub resize-Writes :
    (s : Store) (o n : ℕ) → IsOwned s → Writes s (resize s o n) o (resized n (value s o))
unfolding resize
resize-Writes s o n v = elim (Bool-cases (n == length (value s o))) [
  | inl e ↦ rw e (record {
    shows =
        subst (λ k. value s o ≡ resized k (value s o)) (sym ((==_iff n _).0 e))
          (resized_same (value s o));
    elsewhere = λ q ne. refl;
    owned = v;
  })
  | inr e ↦ rw e (Writes-kept s o (resized n) v)
]

-- In a store where no exclusive buffer has a second object, every call keeps it so, gives its
-- object the value that the call stands for, and changes the value of no other object.
step-Writes :
    (s : Store) (c : Call) → IsOwned s → Writes s (step s c) (target c) (result (value s) c)
unfolding step clear assign_chunk append_chunk append_byte
step-Writes s (assigns o src) v = record {
  shows = unfold assign_bytes in ground arith;
  elsewhere = assign_bytes-elsewhere s o src;
  owned = assign_bytes-IsOwned s o src v;
}
step-Writes s (appends o src) v = append_bytes-Writes s o src v
step-Writes s (assigns_chunk o []) v = record {
  shows = ground arith;
  elsewhere = λ q ne. ground arith;
  owned = clear-IsOwned s o v;
}
step-Writes s (assigns_chunk o (x ∷ xs)) v =
    write-Writes false s _ o (λ _. x ∷ xs) (exclusive_data-Ready false s o v)
step-Writes s (appends_chunk o []) v = record {
  shows = sym (append-nil (value s o));
  elsewhere = λ q ne. refl;
  owned = v;
}
step-Writes s (appends_chunk o (x ∷ xs)) v = Writes-kept s o (λ b. b ++ x ∷ xs) v
step-Writes s (appends_byte o x) v = Writes-kept s o (λ b. b ++ x ∷ []) v
step-Writes s (resizes o n) v = resize-Writes s o n v
step-Writes s (clears o) v = record {
  shows = ground arith;
  elsewhere = λ q ne. ground arith;
  owned = clear-IsOwned s o v;
}

-- The objects as plain values: a call is an assignment.
abbrev pub assignments : (ℕ → List ℕ) → List Call → ℕ → List ℕ
assignments v [] = v
assignments v (c ∷ cs) = assignments (update v (target c) (result v c)) cs

pub step-value :
    (s : Store) (c : Call) (q : ℕ)
    → IsOwned s
    → value (step s c) q ≡ update (value s) (target c) (result (value s) c) q
step-value s c q v = elim (Bool-cases (q == target c)) [
  | inl e ↦ rw e (rw ((==_iff q (target c)).0 e) (step-Writes s c v).shows)
  | inr e ↦ rw e ((step-Writes s c v).elsewhere q (λ h. ground arith))
]

-- From a store in which no exclusive buffer has a second object, after any sequence of assignments,
-- appends, resizes and clears each object has the value it would have if it had its own copy.
pub run-assignments :
    (s : Store) (cs : List Call) (q : ℕ)
    → IsOwned s
    → value (run s cs) q ≡ assignments (value s) cs q
unfolding run
run-assignments s [] q v = refl
run-assignments s (c ∷ cs) q v =
    run-assignments (step s c) cs q (step-Writes s c v).owned
    ∙ ap (λ f. assignments f cs q) (fun_ext (λ k. step-value s c k v))

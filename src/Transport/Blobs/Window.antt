-- ===== src/Transport/Blobs/Window.antt =====
-- src/microReticulum/Transport.cpp: how long the random blobs of a path remember one of them.
use micro_reticulum.Prelude.{
  ℕ, zero, suc, ◌+◌, ◌-◌, ◌≤◌, ◌<◌, ◌≡◌, refl, ap, ◌∙◌, inl, inr, List, [], ◌∷◌, ◌++◌, true, false,
  ltb, length, drop, length-append, append_assoc, Bool-cases, arith,
}
use micro_reticulum.Bytes.{Bytes}
use micro_reticulum.Bytes.Compare.{same_iff}
use micro_reticulum.Transport.Blobs.{has_blob, max_random_blobs, remember_blob, has_blob-append}

drop-append_within :
    (k : ℕ) (xs ys : List Bytes) → k ≤ length xs → drop k (xs ++ ys) ≡ drop k xs ++ ys
drop-append_within zero xs ys h = refl
drop-append_within (suc k) [] ys h = absurd (omega arith)
drop-append_within (suc k) (x ∷ xs) ys h = drop-append_within k xs ys (omega arith)

-- A blob among the others, with at most so many behind it.
pub record IsRecent (b : Bytes) (blobs : List Bytes) (n : ℕ) : Type 0 where
  older : List Bytes
  newer : List Bytes
  split : blobs ≡ older ++ (b ∷ newer)
  near : length newer ≤ n

pub has_blob-IsRecent :
    (b : Bytes) (blobs : List Bytes) (n : ℕ) → IsRecent b blobs n → has_blob b blobs ≡ true
unfolding has_blob
has_blob-IsRecent b blobs n w =
    rw (w.split, has_blob-append b w.older (b ∷ w.newer), (same_iff b b).1 refl) (ground arith)

-- A blob that is new stands behind the others.
pub remember_blob-IsRecent :
    (b : Bytes) (blobs : List Bytes)
    → has_blob b blobs ≡ false
    → length blobs ≤ max_random_blobs
    → IsRecent b (remember_blob b blobs) 0
unfolding remember_blob
remember_blob-IsRecent b blobs new small =
    let longer : List Bytes = blobs ++ b ∷ [] in
    let k : ℕ = length longer - max_random_blobs in
    let size : length longer ≡ length blobs + 1 = length-append blobs (b ∷ []) in
    elim (Bool-cases (ltb max_random_blobs (length longer))) [
      | inl full ↦
          rw (new, full)
            (record {
              older = drop k blobs;
              newer = [];
              split = drop-append_within k blobs (b ∷ []) (omega (arith, size, small));
              near = omega arith;
            })
      | inr room ↦
          rw (new, room) (record { older = blobs; newer = []; split = refl; near = omega arith })
    ]

-- Another one drives it out only where 31 are behind it already.
pub remember_blob-IsRecent_later :
    (c b : Bytes) (blobs : List Bytes) (n : ℕ)
    → suc n < max_random_blobs
    → IsRecent b blobs n
    → IsRecent b (remember_blob c blobs) (suc n)
unfolding remember_blob
remember_blob-IsRecent_later c b blobs n inside w =
    let longer : List Bytes = blobs ++ c ∷ [] in
    let k : ℕ = length longer - max_random_blobs in
    let whole : longer ≡ w.older ++ (b ∷ (w.newer ++ c ∷ [])) =
      ap (λ bs. bs ++ c ∷ []) w.split ∙ append_assoc w.older (b ∷ w.newer) (c ∷ []) in
    let tail : length (w.newer ++ c ∷ []) ≡ length w.newer + 1 = length-append w.newer (c ∷ []) in
    let size : length longer ≡ length w.older + suc (length (w.newer ++ c ∷ [])) =
      ap length whole ∙ length-append w.older (b ∷ (w.newer ++ c ∷ [])) in
    elim (Bool-cases (has_blob c blobs)) [
      | inl old ↦ rw old (record {
        older = w.older;
        newer = w.newer;
        split = w.split;
        near = omega (arith, w.near);
      })
      | inr new ↦ elim (Bool-cases (ltb max_random_blobs (length longer))) [
        | inl full ↦
            rw (new, full)
              (record {
                older = drop k w.older;
                newer = w.newer ++ c ∷ [];
                split =
                    ap (drop k) whole
                    ∙ drop-append_within k w.older (b ∷ (w.newer ++ c ∷ []))
                        (omega (arith, size, tail, w.near, inside));
                near = omega (arith, tail, w.near);
              })
        | inr room ↦
            rw (new, room)
              (record {
                older = w.older;
                newer = w.newer ++ c ∷ [];
                split = whole;
                near = omega (arith, tail, w.near);
              })
      ]
    ]

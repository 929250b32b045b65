-- ===== src/Tests/Buffers.antt =====
-- src/microReticulum/Bytes.h and Bytes.cpp at concrete inputs.
use micro_reticulum.Prelude.{
  ◌≡◌, refl, List, [], ◌∷◌, Option, none, some, true, false, ◌==◌, if◌then◌else◌, arith,
}
use micro_reticulum.Bytes.{Bytes, mid_len, mid, left, right}
use micro_reticulum.Bytes.Hex.{to_hex, assign_hex, assign_hex-to_hex}
use micro_reticulum.Bytes.Shared.{
  Store, value, Call, assigns, assigns_chunk, appends, appends_byte, resizes, clears, run, writable,
}
use micro_reticulum.Bytes.Shared.Ownership.{IsOwned}
use micro_reticulum.Bytes.Shared.Isolation.{run-assignments}
use micro_reticulum.Bytes.Shared.Writable.{IsWritable, writable-IsWritable}

abbrev sample : Bytes
sample = 0x0a ∷ 0xff ∷ 0x10 ∷ []

slices :
    (mid_len sample 1 9 ≡ 0xff ∷ 0x10 ∷ [])
    × (mid sample 3 ≡ [])
    × (left sample 2 ≡ 0x0a ∷ 0xff ∷ [])
    × (right sample 1 ≡ 0x10 ∷ [])
unfolding mid_len mid left right
slices = (refl, refl, refl, refl)

hex_text : to_hex false (0x0a ∷ 0xff ∷ []) ≡ b'0' ∷ b'a' ∷ b'f' ∷ b'f' ∷ []
unfolding to_hex
hex_text = refl

assign_hex-to_hex_example : assign_hex (to_hex true sample) ≡ sample
assign_hex-to_hex_example = assign_hex-to_hex true sample (omega arith)

abbrev nothing : Option Bytes
nothing = none

-- No object has a buffer yet.
abbrev blank : Store
blank = record {
  objects = λ o. record { buffer = none; exclusive = true };
  heap = λ p. [];
  next = 0;
}

blank-IsOwned : IsOwned blank
blank-IsOwned = record { alone = λ o q p h e k. cc; used = λ o p h. cc }

abbrev calls : List Call
calls =
    assigns_chunk 0 (1 ∷ 2 ∷ [])
    ∷ assigns 1 0
    ∷ appends_byte 0 3
    ∷ appends 1 0
    ∷ resizes 0 1
    ∷ clears 2
    ∷ []

run-assignments_example : value (run blank calls) 1 ≡ 1 ∷ 2 ∷ 1 ∷ 2 ∷ 3 ∷ []
run-assignments_example = run-assignments blank calls 1 blank-IsOwned

-- Object 1 holds the sample.
abbrev holding : Store
holding = record {
  objects = λ o. record { buffer = if o == 1 then some 0 else none; exclusive = true };
  heap = λ p. sample;
  next = 1;
}

holding-IsOwned : IsOwned holding
holding-IsOwned = record { alone = λ o q p h e k. ground arith; used = λ o p h. ground arith }

writable-IsWritable_example : IsWritable holding (writable holding 1 8) 1 8
writable-IsWritable_example = writable-IsWritable holding 1 8 holding-IsOwned (omega arith)

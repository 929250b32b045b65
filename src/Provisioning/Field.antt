-- ===== src/Provisioning/Field.antt =====
-- src/microReticulum/Provisioning/Field.h and Field.cpp: the class `Field` and `validate`.
use Prim.Native.Nat.{bit_and}
use micro_reticulum.Prelude.{
  ℕ, ◌^◌, List, [], ◌∷◌, Option, Bool, true, false, not, ◌&&◌, ◌||◌, if◌then◌else◌, ltb, ◌==◌,
  length, ℤ, ltb_ℤ, eq_ℤ,
}
use micro_reticulum.Bytes.{Bytes}
use micro_reticulum.Provisioning.Value.{
  Double, Value, Kind, of_none, of_bool, of_int, of_float, of_string, of_bytes, of_enum,
  of_bytes_list, of_void, kind_code,
}

-- `FieldFlags`
abbrev pub ff_live_apply : ℕ
ff_live_apply = 2 ^ 0

abbrev pub ff_reboot_required : ℕ
ff_reboot_required = 2 ^ 1

abbrev pub ff_read_only : ℕ
ff_read_only = 2 ^ 2

abbrev pub ff_secret : ℕ
ff_secret = 2 ^ 3

abbrev pub ff_write_only : ℕ
ff_write_only = 2 ^ 4

pub record Constraint (F : Type 0) : Type 0 where
  pub has_range : Bool
  pub imin : ℤ
  pub imax : ℤ
  pub fmin : F
  pub fmax : F
  pub max_len : ℕ
  pub element_size : ℕ
  pub max_count : ℕ
  pub enum_values : List ℤ

-- The setter and the getter act on the running program, whose state has the type `R`.
pub record Field (F R : Type 0) : Type 0 where
  pub id : ℕ
  pub name : Bytes
  pub kind : Kind
  pub flags : ℕ
  pub constraint : Constraint F
  pub default_value : Value F
  pub setter : Option (Value F → R → R × Bool)
  pub getter : Option (R → Value F)

-- `std::find(...) != end()`
unfoldable pub has_enum : ℤ → List ℤ → Bool
has_enum v [] = false
has_enum v (x ∷ xs) = eq_ℤ x v || has_enum v xs

unfoldable pub all_sized : ℕ → List Bytes → Bool
all_sized size [] = true
all_sized size (e ∷ es) = if not (length e == size) then false else all_sized size es

-- `max > 0 && size > max`
abbrev over : ℕ → ℕ → Bool
over max size = ltb 0 max && ltb max size

abbrev is_nil : List ℤ → Bool
is_nil [] = true
is_nil (x ∷ xs) = false

abbrev pub has_flag : {F R : Type 0} → Field F R → ℕ → Bool
has_flag field flag = not (bit_and field.flags flag == 0)

module _ {F : Type 0} ⦃f : Double F⦄ where
  -- The cases of `validate`, for a value of the field's kind.
  abbrev pub satisfies : Kind → Constraint F → Value F → Bool
  satisfies of_none c v = false
  satisfies of_bool c v = true
  satisfies of_int c v =
      if c.has_range then (if ltb_ℤ v.i c.imin || ltb_ℤ c.imax v.i then false else true) else true
  satisfies of_float c v =
      if c.has_range then (if f.less v.d c.fmin || f.less c.fmax v.d then false else true) else true
  satisfies of_string c v = if over c.max_len (length v.s) then false else true
  satisfies of_bytes c v = if over c.max_len (length v.b) then false else true
  satisfies of_enum c v = if not (is_nil c.enum_values) then has_enum v.i c.enum_values else true
  satisfies of_bytes_list c v =
      if over c.max_count (length v.bl)
      then false
      else if ltb 0 c.element_size
      then all_sized c.element_size v.bl
      else true
  satisfies of_void c v = kind_code v.kind == kind_code of_void

  unfoldable pub validate : {R : Type 0} → Field F R → Value F → Bool
  unfolding has_enum all_sized
  validate field v =
      if not (kind_code v.kind == kind_code field.kind)
      then false
      else satisfies field.kind field.constraint v

-- ===== src/Provisioning/Value.antt =====
-- src/microReticulum/Provisioning/Value.h: the class `Value`, a kind with one field per payload.
use micro_reticulum.Prelude.{
  ℕ, List, [], ◌∷◌, Bool, true, false, ◌&&◌, if◌then◌else◌, not, ◌==◌, ℤ, pos, eq_ℤ,
}
use micro_reticulum.Bytes.{Bytes, same}

-- `double`, with the comparisons of the language.
pub record Double (F : Type 0) : Type 0 where
  pub zero_double : F
  pub less : F → F → Bool
  pub equal : F → F → Bool

-- `enum class Type`
pub data Kind : Type 0 where
  of_none of_bool of_int of_float of_string of_bytes of_enum of_bytes_list of_void : Kind

abbrev pub kind_code : Kind → ℕ
kind_code of_none = 0
kind_code of_bool = 1
kind_code of_int = 2
kind_code of_float = 3
kind_code of_string = 4
kind_code of_bytes = 5
kind_code of_enum = 6
kind_code of_bytes_list = 7
kind_code of_void = 8

-- A string is the list of its characters.
pub record Value (F : Type 0) : Type 0 where
  pub kind : Kind
  pub i : ℤ
  pub d : F
  pub s : Bytes
  pub b : Bytes
  pub bl : List Bytes

-- `==` of two vectors of buffers.
unfoldable pub lists_eq : List Bytes → List Bytes → Bool
unfolding same
lists_eq [] [] = true
lists_eq (x ∷ xs) (y ∷ ys) = same x y && lists_eq xs ys
lists_eq _ _ = false

module _ {F : Type 0} ⦃f : Double F⦄ where
  -- `Value()`
  abbrev pub none_value : Value F
  none_value = record { kind = of_none; i = pos 0; d = f.zero_double; s = []; b = []; bl = [] }

  abbrev pub int_value : ℤ → Value F
  int_value v = record none_value { kind = of_int; i = v }

  abbrev pub make_enum : ℤ → Value F
  make_enum v = record none_value { kind = of_enum; i = v }

  abbrev pub from_int_as : Kind → ℤ → Value F
  from_int_as declared_type v = record none_value { kind = declared_type; i = v }

  abbrev pub make_void : Value F
  make_void = record none_value { kind = of_void }

  abbrev same_payload : Kind → Value F → Value F → Bool
  same_payload of_none v o = true
  same_payload of_bool v o = eq_ℤ v.i o.i
  same_payload of_int v o = eq_ℤ v.i o.i
  same_payload of_enum v o = eq_ℤ v.i o.i
  same_payload of_float v o = f.equal v.d o.d
  same_payload of_string v o = same v.s o.s
  same_payload of_bytes v o = same v.b o.b
  same_payload of_bytes_list v o = lists_eq v.bl o.bl
  same_payload of_void v o = true

  -- `operator==`
  unfoldable pub value_eq : Value F → Value F → Bool
  unfolding same lists_eq
  value_eq v o =
      if not (kind_code v.kind == kind_code o.kind) then false else same_payload v.kind v o

-- ===== src/PythonMessage/Missing.antt =====
-- The fields that no accessor of the code fits.
use lib_arcus.Prelude.{◌≡◌, refl, some, Bytes, ◌⊎◌, inl, inr, ap, ◌≢◌, arith, sym}
use lib_arcus.Reflection.{
  FieldType, CppType, fatal, Floats, Reflection, IsReflection, Python, cpp_type_of,
}
use lib_arcus.PythonMessage.{PythonMessage, World}
use lib_arcus.PythonMessage.Fields.{get_attr, set_attr, get_field, set_field, set_int32, set_int64}

module _ {Float Double : Type 0} (floats : Floats Float Double) (r : Reflection Float Double)
    (py : Python Double) where
  -- Every field of type fixed32 or fixed64 ends the process: `__getattr__` reads it, and
  -- `__setattr__` writes whatever value it is given, with the accessor of another C++ type.
  pub fixed-fatal :
      IsReflection r
      → (m : PythonMessage r) (name : Bytes) (f : r.Field) (value : py.Object) (w : World r)
      → r.find_field_by_name m.descriptor name ≡ some f
      → (r.field_type f ≡ FieldType.type_fixed32) ⊎ (r.field_type f ≡ FieldType.type_fixed64)
      → (get_attr floats r py m name w ≡ fatal) × (set_attr floats r py m name value w ≡ fatal)
  unfolding get_attr set_attr get_field set_field set_int32 set_int64
  fixed-fatal laws m name f value w found (inl ty) =
      let other : cpp_type_of (r.field_type f) ≢ CppType.cpp_int32 =
        λ e. ground (arith, e, sym (ap cpp_type_of ty)) in
      (
        rw (found, get_attr, ty, laws.get_mismatch CppType.cpp_int32 w.heap m.message f other) refl,
        rw
            (
              found,
              set_attr,
              ty,
              set_int32,
              laws.set_mismatch CppType.cpp_int32 w.heap m.message f _ other,
            )
            refl,
      )
  fixed-fatal laws m name f value w found (inr ty) =
      let other : cpp_type_of (r.field_type f) ≢ CppType.cpp_int64 =
        λ e. ground (arith, e, sym (ap cpp_type_of ty)) in
      (
        rw (found, get_attr, ty, laws.get_mismatch CppType.cpp_int64 w.heap m.message f other) refl,
        rw
            (
              found,
              set_attr,
              ty,
              set_int64,
              laws.set_mismatch CppType.cpp_int64 w.heap m.message f _ other,
            )
            refl,
      )

-- ===== src/Envelope/Strip.antt =====
-- `strip_pua` of src/dlt_matterbeam/envelope.py. dlt's `custom_pua_remove` is a parameter.
use dlt_matterbeam.Prelude.{String, ◌≡◌, refl}
use dlt_matterbeam.Json.{
  Json, Items, Fields, null, boolean, num, str, arr, obj, nil, cons, end, field,
}

module _ (custom_pua_remove : String → String) where
  unfoldable mutual
    pub strip_pua : Json → Json
    strip_pua null = null
    strip_pua (boolean b) = boolean b
    strip_pua (num z) = num z
    strip_pua (str s) = str (custom_pua_remove s)
    strip_pua (arr xs) = arr (strip_items xs)
    strip_pua (obj fs) = obj (strip_fields fs)

    pub strip_items : Items → Items
    strip_items nil = nil
    strip_items (cons x xs) = cons (strip_pua x) (strip_items xs)

    pub strip_fields : Fields → Fields
    strip_fields end = end
    strip_fields (field k v fs) = field k (strip_pua v) (strip_fields fs)

  module _
      (idem : (s : String) → custom_pua_remove (custom_pua_remove s) ≡ custom_pua_remove s) where
    mutual
      unfolding strip_pua strip_items strip_fields

      twice : (j : Json) → strip_pua (strip_pua j) ≡ strip_pua j
      twice null = refl
      twice (boolean b) = refl
      twice (num z) = refl
      twice (str s) = λ i. str (idem s i)
      twice (arr xs) = λ i. arr (items_twice xs i)
      twice (obj fs) = λ i. obj (fields_twice fs i)

      items_twice : (xs : Items) → strip_items (strip_items xs) ≡ strip_items xs
      items_twice nil = refl
      items_twice (cons x xs) = λ i. cons (twice x i) (items_twice xs i)

      fields_twice : (fs : Fields) → strip_fields (strip_fields fs) ≡ strip_fields fs
      fields_twice end = refl
      fields_twice (field k v fs) = λ i. field k (twice v i) (fields_twice fs i)

    -- Where removing the markers of a text twice is removing them once, so is stripping a value,
    -- however deeply its texts are nested.
    pub strip_pua-strip_pua : (j : Json) → strip_pua (strip_pua j) ≡ strip_pua j
    strip_pua-strip_pua j = twice j

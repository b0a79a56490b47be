-- ===== src/Audit/Mask/Reference.antt =====
-- src/audit/mask.rs beside a map over the fields.
use rust_panel.Prelude.{
  refl, true, false, Text, if◌then◌else◌, ◌∙◌, ◌≡◌, Bool, ap, arith, ◌||◌, sym, text_eq,
  text_eq_iff,
}
use rust_panel.Audit.Mask.{
  Value, Items, Fields, null, boolean, number, string, array, object, no_items, item, no_fields,
  field, Text, insert, mask_value, Bool, key_is_sensitive, mask_items, redacted, text_eq, mask_into,
}

unfoldable mutual
  -- masking as a map over the fields
  pub redact : Value → Value
  redact (object fs) = object (redact_fields fs)
  redact (array vs) = array (redact_items vs)
  redact null = null
  redact (boolean b) = boolean b
  redact (number n) = number n
  redact (string s) = string s

  pub redact_items : Items → Items
  redact_items no_items = no_items
  redact_items (item v vs) = item (redact v) (redact_items vs)

  pub redact_fields : Fields → Fields
  redact_fields no_fields = no_fields
  redact_fields (field k v fs) =
      field k (if key_is_sensitive k then redacted else redact v) (redact_fields fs)

abbrev pub has_field : Text → Fields → Bool
has_field k no_fields = false
has_field k (field j v fs) = text_eq k j || has_field k fs

-- Each object names each of its keys once, as a map does.
abbrev mutual
  pub IsMap : Value → Type 0
  IsMap (object fs) = AreDistinct fs
  IsMap (array vs) = AllMaps vs
  IsMap _ = Unit

  pub AllMaps : Items → Type 0
  AllMaps no_items = Unit
  AllMaps (item v vs) = IsMap v × AllMaps vs

  pub AreDistinct : Fields → Type 0
  AreDistinct no_fields = Unit
  AreDistinct (field k v fs) = (has_field k fs ≡ false) × IsMap v × AreDistinct fs

abbrev join : Fields → Fields → Fields
join no_fields gs = gs
join (field k v fs) gs = field k v (join fs gs)

join-no_fields : (fs : Fields) → join fs no_fields ≡ fs
join-no_fields no_fields = refl
join-no_fields (field k v fs) = ap (field k v) (join-no_fields fs)

join_assoc : (fs gs hs : Fields) → join (join fs gs) hs ≡ join fs (join gs hs)
join_assoc no_fields gs hs = refl
join_assoc (field k v fs) gs hs = ap (field k v) (join_assoc fs gs hs)

has_field-join :
    (k : Text) (fs gs : Fields) → has_field k (join fs gs) ≡ (has_field k fs || has_field k gs)
has_field-join k no_fields gs = refl
has_field-join k (field j v fs) gs = ground (arith, has_field-join k fs gs)

-- A new key comes last.
insert_new :
    (k : Text) (v : Value) (out : Fields)
    → has_field k out ≡ false
    → insert k v out ≡ join out (field k v no_fields)
unfolding insert
insert_new k v no_fields h = refl
insert_new k v (field j w fs) h = ground (arith, insert_new k v fs)

-- No key of `fs` stands in `out`.
abbrev AreNew : Fields → Fields → Type 0
AreNew out no_fields = Unit
AreNew out (field k v fs) = (has_field k out ≡ false) × AreNew out fs

AreNew-join :
    (out fs : Fields) (k : Text) (v : Value)
    → AreNew out fs
    → has_field k fs ≡ false
    → AreNew (join out (field k v no_fields)) fs
AreNew-join out no_fields k v h g = tt
AreNew-join out (field j w fs) k v (p, h) g = (
  ground (arith, has_field-join j out (field k v no_fields), text_eq_iff j k, text_eq_iff k j),
  AreNew-join out fs k v h (ground arith),
)

no_fields-AreNew : (fs : Fields) → AreNew no_fields fs
no_fields-AreNew no_fields = tt
no_fields-AreNew (field k v fs) = (refl, no_fields-AreNew fs)

mutual
  unfolding mask_value redact

  mask_value-redact : (v : Value) → IsMap v → mask_value v ≡ redact v
  mask_value-redact (object fs) h =
      ap object (mask_into-redact no_fields fs (no_fields-AreNew fs) h)
  mask_value-redact (array vs) h = ap array (mask_items-redact vs h)
  mask_value-redact null h = refl
  mask_value-redact (boolean b) h = refl
  mask_value-redact (number n) h = refl
  mask_value-redact (string s) h = refl

  mask_items-redact : (vs : Items) → AllMaps vs → mask_items vs ≡ redact_items vs
  mask_items-redact no_items h = refl
  mask_items-redact (item v vs) (p, h) = cc (mask_value-redact v p, mask_items-redact vs h)

  mask_into-redact :
      (out fs : Fields)
      → AreNew out fs
      → AreDistinct fs
      → mask_into out fs ≡ join out (redact_fields fs)
  mask_into-redact out no_fields new h = sym (join-no_fields out)
  mask_into-redact out (field k v fs) (first, new) (once, p, h) =
      let w = if key_is_sensitive k then redacted else redact v in
      ap (λ x. mask_into (insert k (if key_is_sensitive k then redacted else x) out) fs)
        (mask_value-redact v p)
      ∙ ap (λ o. mask_into o fs) (insert_new k w out first)
      ∙ mask_into-redact (join out (field k w no_fields)) fs (AreNew-join out fs k w new once) h
      ∙ join_assoc out (field k w no_fields) (redact_fields fs)

has_field-redact_fields : (k : Text) (fs : Fields) → has_field k (redact_fields fs) ≡ has_field k fs
unfolding redact
has_field-redact_fields k no_fields = refl
has_field-redact_fields k (field j v fs) = ground (arith, has_field-redact_fields k fs)

settled :
    (b : Bool) (v : Value)
    → redact v ≡ v
    → (if b then redacted else redact (if b then redacted else v)) ≡ (if b then redacted else v)
settled true v h = refl
settled false v h = h

hidden : (b : Bool) (v : Value) → IsMap v → IsMap (if b then redacted else v)
hidden true v h = tt
hidden false v h = h

mutual
  unfolding redact

  redact_idem : (v : Value) → redact (redact v) ≡ redact v
  redact_idem (object fs) = ap object (redact_fields_idem fs)
  redact_idem (array vs) = ap array (redact_items_idem vs)
  redact_idem null = refl
  redact_idem (boolean b) = refl
  redact_idem (number n) = refl
  redact_idem (string s) = refl

  redact_items_idem : (vs : Items) → redact_items (redact_items vs) ≡ redact_items vs
  redact_items_idem no_items = refl
  redact_items_idem (item v vs) = cc (redact_idem v, redact_items_idem vs)

  redact_fields_idem : (fs : Fields) → redact_fields (redact_fields fs) ≡ redact_fields fs
  redact_fields_idem no_fields = refl
  redact_fields_idem (field k v fs) =
      cc (settled (key_is_sensitive k) (redact v) (redact_idem v), redact_fields_idem fs)

mutual
  unfolding redact

  redact-IsMap : (v : Value) → IsMap v → IsMap (redact v)
  redact-IsMap (object fs) h = redact_fields-AreDistinct fs h
  redact-IsMap (array vs) h = redact_items-AllMaps vs h
  redact-IsMap null h = tt
  redact-IsMap (boolean b) h = tt
  redact-IsMap (number n) h = tt
  redact-IsMap (string s) h = tt

  redact_items-AllMaps : (vs : Items) → AllMaps vs → AllMaps (redact_items vs)
  redact_items-AllMaps no_items h = tt
  redact_items-AllMaps (item v vs) (p, h) = (redact-IsMap v p, redact_items-AllMaps vs h)

  redact_fields-AreDistinct : (fs : Fields) → AreDistinct fs → AreDistinct (redact_fields fs)
  redact_fields-AreDistinct no_fields h = tt
  redact_fields-AreDistinct (field k v fs) (once, p, h) = (
    has_field-redact_fields k fs ∙ once,
    hidden (key_is_sensitive k) (redact v) (redact-IsMap v p),
    redact_fields-AreDistinct fs h,
  )

-- On a value whose objects name each key once, masking by insertion into new maps is the map over the fields
-- that keeps all keys and their order, replaces the values under sensitive keys and masks the other values;
-- and masking a masked value changes nothing.
pub mask_value-eq :
    (v : Value) → IsMap v → (mask_value v ≡ redact v) × (mask_value (mask_value v) ≡ mask_value v)
mask_value-eq v h =
    let once = mask_value-redact v h in
    (
      once,
      ap mask_value once
          ∙ mask_value-redact (redact v) (redact-IsMap v h)
          ∙ redact_idem v
          ∙ sym once,
    )

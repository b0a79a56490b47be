-- ===== src/Audit/Mask/Redacted.antt =====
-- What src/audit/mask.rs leaves of a value.
use rust_panel.Audit.Mask.{
  Value, Items, Fields, null, boolean, number, string, array, object, no_items, item, no_fields,
  field,
}
use rust_panel.Audit.Mask.{
  Value, insert, mask_value, Fields, key_is_sensitive, object, array, field, no_fields, redacted,
  Items, boolean, text_eq, item, number, string, mask_items, mask_into,
}
use rust_panel.Prelude.{
  refl, true, false, inl, inr, Bool, Text, if◌then◌else◌, ◌≡◌, Bool-cases, text_eq, subst,
  text_eq_iff,
}

-- Every sensitive key, at any depth, has the text [REDACTED] as its value.
abbrev mutual
  pub IsRedacted : Value → Type 0
  IsRedacted (object fs) = AreRedacted fs
  IsRedacted (array vs) = AllRedacted vs
  IsRedacted _ = Unit

  pub AllRedacted : Items → Type 0
  AllRedacted no_items = Unit
  AllRedacted (item v vs) = IsRedacted v × AllRedacted vs

  pub AreRedacted : Fields → Type 0
  AreRedacted no_fields = Unit
  AreRedacted (field k v fs) =
      (key_is_sensitive k ≡ true → v ≡ redacted) × IsRedacted v × AreRedacted fs

insert-AreRedacted :
    (k : Text) (v : Value) (fs : Fields)
    → (key_is_sensitive k ≡ true → v ≡ redacted)
    → IsRedacted v
    → AreRedacted fs
    → AreRedacted (insert k v fs)
unfolding insert
insert-AreRedacted k v no_fields h r p = (h, r, tt)
insert-AreRedacted k v (field j w fs) h r (g, q, p) = elim (Bool-cases (text_eq k j)) [
  | inl same ↦
      rw (same)
        (subst (λ i. key_is_sensitive i ≡ true → v ≡ redacted) ((text_eq_iff k j).0 same) h, r, p)
  | inr other ↦ rw (other) (g, q, insert-AreRedacted k v fs h r p)
]

chosen :
    (k : Text) (v : Value)
    → key_is_sensitive k ≡ true
    → (if key_is_sensitive k then redacted else v) ≡ redacted
chosen k v h = rw (h) refl

chosen-IsRedacted : (b : Bool) (v : Value) → IsRedacted v → IsRedacted (if b then redacted else v)
chosen-IsRedacted true v h = tt
chosen-IsRedacted false v h = h

mutual
  unfolding mask_value

  value-IsRedacted : (v : Value) → IsRedacted (mask_value v)
  value-IsRedacted (object fs) = into-AreRedacted no_fields fs tt
  value-IsRedacted (array vs) = items-AllRedacted vs
  value-IsRedacted null = tt
  value-IsRedacted (boolean b) = tt
  value-IsRedacted (number n) = tt
  value-IsRedacted (string s) = tt

  items-AllRedacted : (vs : Items) → AllRedacted (mask_items vs)
  items-AllRedacted no_items = tt
  items-AllRedacted (item v vs) = (value-IsRedacted v, items-AllRedacted vs)

  into-AreRedacted : (out fs : Fields) → AreRedacted out → AreRedacted (mask_into out fs)
  into-AreRedacted out no_fields h = h
  into-AreRedacted out (field k v fs) h =
      into-AreRedacted (insert k (if key_is_sensitive k then redacted else mask_value v) out) fs (
        insert-AreRedacted k _ out (chosen k (mask_value v))
          (chosen-IsRedacted (key_is_sensitive k) (mask_value v) (value-IsRedacted v)) h)

-- In a masked value every key that counts as sensitive, at any depth, through arrays and objects, has the
-- text [REDACTED] as its value.
pub mask_value-IsRedacted : (v : Value) → IsRedacted (mask_value v)
mask_value-IsRedacted v = value-IsRedacted v

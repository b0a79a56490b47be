-- ===== src/Audit/Mask.antt =====
-- src/audit/mask.rs: the redaction of JSON values. An object is the list of its fields in the order in which
-- the map is iterated; a number is the text that it is printed as.
pub mod Redacted
pub mod Reference
use rust_panel.Prelude.{
  [], ◌∷◌, Bool, List, Text, codes, if◌then◌else◌, any, text_eq, to_ascii_lowercase, ◌||◌, contains,
}

mutual
  pub data Value : Type 0 where
    null : Value
    boolean : Bool → Value
    number : Text → Value
    string : Text → Value
    array : Items → Value
    object : Fields → Value

  pub data Items : Type 0 where
    no_items : Items
    item : Value → Items → Items

  pub data Fields : Type 0 where
    no_fields : Fields
    field : Text → Value → Fields → Fields

abbrev pub sensitive_keys : List Text
sensitive_keys =
    codes "password"
    ∷ codes "passwd"
    ∷ codes "token"
    ∷ codes "secret"
    ∷ codes "authorization"
    ∷ codes "cookie"
    ∷ codes "api_key"
    ∷ codes "apikey"
    ∷ codes "access_key"
    ∷ codes "private_key"
    ∷ codes "content"
    ∷ []

unfoldable pub key_is_sensitive : Text → Bool
key_is_sensitive key =
    any
      (λ needle.
        text_eq (to_ascii_lowercase key) needle || contains needle (to_ascii_lowercase key))
      sensitive_keys

-- `Map::insert`: the value of a key that is there is replaced, another key comes last. The map of serde_json is
-- sorted, and the keys are inserted in their order, so that the last is its place there.
unfoldable pub insert : Text → Value → Fields → Fields
insert k v no_fields = field k v no_fields
insert k v (field j w fs) = if text_eq k j then field j v fs else field j w (insert k v fs)

abbrev pub redacted : Value
redacted = string (codes "[REDACTED]")

-- `mask_into` is the loop of `mask_map`, from the map `out` that it has built so far.
unfoldable mutual
  pub mask_value : Value → Value
  mask_value (object map) = object (mask_into no_fields map)
  mask_value (array items) = array (mask_items items)
  mask_value null = null
  mask_value (boolean b) = boolean b
  mask_value (number n) = number n
  mask_value (string s) = string s

  pub mask_items : Items → Items
  mask_items no_items = no_items
  mask_items (item v vs) = item (mask_value v) (mask_items vs)

  pub mask_into : Fields → Fields → Fields
  mask_into out no_fields = out
  mask_into out (field key value rest) =
      mask_into (insert key (if key_is_sensitive key then redacted else mask_value value) out) rest

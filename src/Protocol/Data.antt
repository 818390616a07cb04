-- ===== src/Protocol/Data.antt =====
-- The class hierarchy of Source/yarc_protocol_data.h as data types: one constructor for each group
-- of classes that share their fields, with a kind for the class itself.
use yarc.Base.{ℕ, ℤ, Bool, false, true, Bytes}

-- BlobStringData and the classes below it.
pub data BlobKind : Type 0 where
  blob_string chunk blob_error verbatim : BlobKind

-- SimpleStringData and SimpleErrorData.
pub data SimpleKind : Type 0 where
  simple_string simple_error : SimpleKind

-- ArrayData and the classes below it.
pub data ArrayKind : Type 0 where
  array set_array push : ArrayKind

-- MapData and AttributeData.
pub data MapKind : Type 0 where
  map_of attribute : MapKind

mutual
  -- A ProtocolData with its `attributeData`, which is null in `bare`.
  pub data Tree : Type 0 where
    bare : Data → Tree
    attributed : (attribute_data : Data) → Data → Tree

  -- The fields of a class: `isNull` and `byteArray`; `value`; `isNull` and `nestedDataArray`;
  -- `fieldValuePairList` and `nestedDataMap`. A double is the number that its 64 bits spell.
  pub data Data : Type 0 where
    blob : BlobKind → (is_null : Bool) → Bytes → Data
    simple : SimpleKind → Bytes → Data
    number : ℤ → Data
    double : (bits : ℕ) → Data
    boolean : Bool → Data
    big_number : Bytes → Data
    end_data : Data
    null_data : Data
    aggregate : ArrayKind → (is_null : Bool) → Trees → Data
    dictionary : MapKind → Pairs → Fields → Data

  -- The elements of a `nestedDataArray`, none of them null.
  pub data Trees : Type 0 where
    no_trees : Trees
    more_trees : Tree → Trees → Trees

  -- A `fieldValuePairList`.
  pub data Pairs : Type 0 where
    no_pairs : Pairs
    more_pairs : Tree → Tree → Pairs → Pairs

  -- A `nestedDataMap` in the order of its keys.
  pub data Fields : Type 0 where
    no_fields : Fields
    more_fields : Bytes → Tree → Fields → Fields

-- DynamicDiscriminant, the first byte of a printed value.
unfoldable pub discriminant : Data → ℕ
discriminant (blob blob_string _ _) = b'$'
discriminant (blob chunk _ _) = b';'
discriminant (blob blob_error _ _) = b'!'
discriminant (blob verbatim _ _) = b'='
discriminant (simple simple_string _) = b'+'
discriminant (simple simple_error _) = b'-'
discriminant (number _) = b':'
discriminant (double _) = b','
discriminant (boolean _) = b'#'
discriminant (big_number _) = b'<'
discriminant end_data = b'.'
discriminant null_data = b'_'
discriminant (aggregate array _ _) = b'*'
discriminant (aggregate set_array _ _) = b'~'
discriminant (aggregate push _ _) = b'>'
discriminant (dictionary map_of _ _) = b'%'
discriminant (dictionary attribute _ _) = b'|'

-- IsNull
unfoldable pub is_null : Data → Bool
is_null (blob _ null _) = null
is_null (aggregate _ null _) = null
is_null null_data = true
is_null _ = false

-- IsError
unfoldable pub is_error : Data → Bool
is_error (blob blob_error _ _) = true
is_error (simple simple_error _) = true
is_error _ = false

-- The value behind an attribute.
abbrev pub payload : Tree → Data
payload (bare d) = d
payload (attributed _ d) = d

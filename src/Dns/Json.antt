-- ===== src/Dns/Json.antt =====
-- indieweb2-bastion/graphql-dns-api/src/policy.rs: the scalar of JSON. A value of serde_json and one of
-- async_graphql have the same shapes where this code makes or reads them; they differ in their numbers.
use civic_connect.Prelude.{String, ◌≡◌, refl, ap, Bool, Option, none, some}
use civic_connect.Dns.Records.{ℤ}

mutual
  pub data Value (N : Type 0) : Type 0 where
    null : Value N
    boolean : Bool → Value N
    number : N → Value N
    string : String → Value N
    array : Items N → Value N
    object : Fields N → Value N

  pub data Items (N : Type 0) : Type 0 where
    nil : Items N
    cons : Value N → Items N → Items N

  pub data Fields (N : Type 0) : Type 0 where
    end : Fields N
    field : String → Value N → Fields N → Fields N

-- The numbers of the two crates: `J` and `G` are theirs, `F` is f64. `of_i64` is serde_json's own
-- conversion, which a parsed integer has.
pub record Numbers : Type 1 where
  pub J : Type 0
  pub G : Type 0
  pub F : Type 0
  pub of_i64 : ℤ → J
  pub as_i64 : J → Option ℤ
  pub as_f64 : J → Option F
  pub from_i64 : ℤ → G
  pub from_f64 : F → Option G

abbrev pub number_or_null : {G : Type 0} → Option G → Value G
number_or_null none = null
number_or_null (some g) = number g

module _ (n : Numbers) where
  abbrev pub float_to_graphql : Option n.F → Value n.G
  float_to_graphql none = null
  float_to_graphql (some f) = number_or_null (n.from_f64 f)

  -- `json_to_graphql` of a number
  unfoldable pub number_to_graphql : n.J → Value n.G
  number_to_graphql j = elim (n.as_i64 j) [
    | some i ↦ number (n.from_i64 i)
    | none ↦ float_to_graphql (n.as_f64 j)
  ]

  unfoldable mutual
    unfolding number_to_graphql

    pub json_to_graphql : Value n.J → Value n.G
    json_to_graphql null = null
    json_to_graphql (boolean b) = boolean b
    json_to_graphql (number j) = number_to_graphql j
    json_to_graphql (string s) = string s
    json_to_graphql (array xs) = array (items_to_graphql xs)
    json_to_graphql (object fs) = object (fields_to_graphql fs)

    pub items_to_graphql : Items n.J → Items n.G
    items_to_graphql nil = nil
    items_to_graphql (cons x xs) = cons (json_to_graphql x) (items_to_graphql xs)

    pub fields_to_graphql : Fields n.J → Fields n.G
    fields_to_graphql end = end
    fields_to_graphql (field k x fs) = field k (json_to_graphql x) (fields_to_graphql fs)

  -- `to_value` of the scalar: only an object has one.
  unfoldable pub to_value : Value n.J → Value n.G
  unfolding json_to_graphql
  to_value (object fs) = object (fields_to_graphql fs)
  to_value _ = null

  -- `parse` of the scalar; `to_json` is `serde_json::to_value` of an object, or its error.
  unfoldable pub parse : (Fields n.G → Option (Value n.J)) → Value n.G → Option (Value n.J)
  parse to_json (object fs) = to_json fs
  parse to_json _ = none

-- The value with other numbers.
unfoldable mutual
  pub relabel : {A B : Type 0} → (A → B) → Value A → Value B
  relabel f null = null
  relabel f (boolean b) = boolean b
  relabel f (number a) = number (f a)
  relabel f (string s) = string s
  relabel f (array xs) = array (relabel_items f xs)
  relabel f (object fs) = object (relabel_fields f fs)

  pub relabel_items : {A B : Type 0} → (A → B) → Items A → Items B
  relabel_items f nil = nil
  relabel_items f (cons x xs) = cons (relabel f x) (relabel_items f xs)

  pub relabel_fields : {A B : Type 0} → (A → B) → Fields A → Fields B
  relabel_fields f end = end
  relabel_fields f (field k x fs) = field k (relabel f x) (relabel_fields f fs)

module _ (n : Numbers) (exact : (i : ℤ) → n.as_i64 (n.of_i64 i) ≡ some i) where
  number_exact : (i : ℤ) → number_to_graphql n (n.of_i64 i) ≡ number (n.from_i64 i)
  unfolding number_to_graphql
  number_exact i = rw (number_to_graphql, exact i) refl

  mutual
    unfolding relabel json_to_graphql

    value_same : (v : Value ℤ) → json_to_graphql n (relabel n.of_i64 v) ≡ relabel n.from_i64 v
    value_same null = refl
    value_same (boolean b) = refl
    value_same (number i) = number_exact i
    value_same (string s) = refl
    value_same (array xs) = ap array (items_same xs)
    value_same (object fs) = ap object (fields_same fs)

    items_same :
        (xs : Items ℤ)
        → items_to_graphql n (relabel_items n.of_i64 xs) ≡ relabel_items n.from_i64 xs
    items_same nil = refl
    items_same (cons x xs) = rw (value_same x, items_same xs) refl

    fields_same :
        (fs : Fields ℤ)
        → fields_to_graphql n (relabel_fields n.of_i64 fs) ≡ relabel_fields n.from_i64 fs
    fields_same end = refl
    fields_same (field k x fs) = rw (value_same x, fields_same fs) refl

  -- An object of which every number, however deep, is an i64 is given to a client with its shape, its
  -- texts and its numbers.
  to_value-relabel :
      (fs : Fields ℤ) → to_value n (relabel n.of_i64 (object fs)) ≡ relabel n.from_i64 (object fs)
  unfolding to_value relabel json_to_graphql
  to_value-relabel fs = ap object (fields_same fs)

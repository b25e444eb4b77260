-- ===== src/CpsApi.antt =====
-- The library of CPS objects, which the code calls and does not implement. An object is a
-- parameter; an attribute is what the accessors cps_api_object_attr_data_* show of it.
use Prim.Native.String.{String}
use text.Mathlib.Text.{◌==◌ as str_eq}
use text.Mathlib.TextEquality.{eq_iff}
use sonic_nas_acl.Base.{
  ℕ, ◌≡◌, ◌↔◌, Bool, true, false, Option, none, some, List, [], ◌∷◌, ◌&&◌, length, if◌then◌else◌,
  Eq, nat_eq, ◌==◌, arith,
}
use sonic_nas_acl.Map.{Map}

-- An attribute id: a constant of a generated header, by its name, or the index of a list.
pub data AttrId : Type 0 where
  named : String → AttrId
  index : ℕ → AttrId

abbrev pub attr_id_beq : AttrId → AttrId → Bool
attr_id_beq (named a) (named b) = str_eq a b
attr_id_beq (index i) (index j) = i == j
attr_id_beq _ _ = false

pub attr_id_beq_iff : (a b : AttrId) → (attr_id_beq a b ≡ true) ↔ (a ≡ b)
attr_id_beq_iff (named a) (named b) =
    (λ h. ground (arith, eq_iff a b), λ h. ground (arith, eq_iff a b))
attr_id_beq_iff (named a) (index j) = (λ h. cc, λ h. cc)
attr_id_beq_iff (index i) (named b) = (λ h. cc, λ h. cc)
attr_id_beq_iff (index i) (index j) = (λ h. ground arith, λ h. ground arith)

instance abbrev pub attr_id_eq : Eq AttrId
attr_id_eq = record { beq = attr_id_beq; beq_iff = attr_id_beq_iff }

abbrev pub AttrPath : Type 0
AttrPath = List AttrId

-- Whether a path is another one or leads to it.
abbrev pub is_prefix : AttrPath → AttrPath → Bool
is_prefix [] q = true
is_prefix (a ∷ p) [] = false
is_prefix (a ∷ p) (b ∷ q) = let rest = is_prefix p q in a == b && rest

-- cps_api_object_attr_data_bin with as many bytes as cps_api_object_attr_len, and
-- cps_api_object_attr_data_u16, _u32 and _u64.
pub record CpsAttr : Type 0 where
  pub bytes : List ℕ
  pub u16 : ℕ
  pub u32 : ℕ
  pub u64 : ℕ

abbrev pub attr_len : CpsAttr → ℕ
attr_len a = length a.bytes

-- The type, the data and the size that a value is added with.
pub data CpsVal : Type 0 where
  bin : List ℕ → CpsVal
  u16 u32 u64 : ℕ → CpsVal

abbrev pub Shows : CpsAttr → CpsVal → Type 0
Shows a (bin bs) = a.bytes ≡ bs
Shows a (u16 n) = (attr_len a ≡ 2) × (a.u16 ≡ n)
Shows a (u32 n) = (attr_len a ≡ 4) × (a.u32 ≡ n)
Shows a (u64 n) = (attr_len a ≡ 8) × (a.u64 ≡ n)

pub record CpsApi (Ob : Type 0) : Type 0 where
  -- cps_api_object_e_get, with `none` for NULL
  pub e_get : Ob → AttrPath → Option CpsAttr
  -- cps_api_object_e_add
  pub e_add : Ob → AttrPath → CpsVal → Bool × Ob
  -- cps_api_object_attr_add_u32 and cps_api_object_attr_add_u64
  pub attr_add : Ob → String → CpsVal → Bool × Ob
  -- The attributes from cps_api_object_it_begin on, and those that cps_api_object_it and
  -- cps_api_object_it_inside reach at a path, with `none` where there is no such attribute.
  pub attrs : Ob → List (AttrId × CpsAttr)
  pub inside : Ob → AttrPath → Option (List (AttrId × CpsAttr))
  -- The attributes that cps_api_object_it_inside reaches from an attribute: they are its bytes.
  pub nested : CpsAttr → List (AttrId × CpsAttr)
  -- nas::ndi_obj_id_table_cps_unserialize and nas::ndi_obj_id_table_cps_serialize
  pub unserialize : Ob → AttrPath → Option (Map ℕ ℕ)
  pub serialize : Map ℕ ℕ → Ob → AttrPath → Bool × Ob
  -- cps_api_get_key_data, cps_api_set_key_data and
  -- cps_api_object_set_key (to, cps_api_object_key (from))
  pub get_key : Ob → String → Option CpsAttr
  pub set_key : Ob → String → CpsVal → Bool × Ob
  pub copy_key : Ob → Ob → Ob
  -- cps_api_key_from_attr_with_qual (cps_api_object_key (obj), id, cps_api_qualifier_TARGET)
  pub init_key : Ob → String → Bool × Ob
  pub added_get :
      (ob ob' : Ob) (p : AttrPath) (v : CpsVal)
      → e_add ob p v ≡ (true, ob')
      → e_get ob p ≡ none
      → (a : CpsAttr) × (e_get ob' p ≡ some a) × Shows a v
  pub key_set :
      (ob ob' : Ob) (id : String) (v : CpsVal)
      → set_key ob id v ≡ (true, ob')
      → (a : CpsAttr) × (get_key ob' id ≡ some a) × Shows a v
  pub added_other :
      (ob ob' : Ob) (p q : AttrPath) (v : CpsVal)
      → e_add ob p v ≡ (true, ob')
      → is_prefix q p ≡ false
      → e_get ob' q ≡ e_get ob q

-- cps_api_object_it_find: the first attribute with an id, with those after it.
unfoldable pub it_find :
    AttrId → List (AttrId × CpsAttr) → Option (CpsAttr × List (AttrId × CpsAttr))
it_find id [] = none
it_find id ((i, a) ∷ rest) =
    let later = it_find id rest in if i == id then some (a, rest) else later

-- src/nas_acl_cps.cpp: the attribute, and whether there is another one with its id.
unfoldable pub nas_acl_get_attr : List (AttrId × CpsAttr) → AttrId → Option (CpsAttr × Bool)
unfolding it_find
nas_acl_get_attr it id = elim (it_find id it) [
  | none ↦ none
  | some (a, rest) ↦ some (a, elim (it_find id rest) [ none ↦ false | some _ ↦ true ])
]

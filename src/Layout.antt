-- ===== src/Layout.antt =====
-- sonic/nas_acl_cps.h: the values that fit an attribute, for the rows of both maps.
use sonic_nas_acl.Base.{
  ℕ, ◌≡◌, refl, ap, ◌⊎◌, inl, inr, some, List, [], ◌∷◌, arith, length, Option-cases,
}
use sonic_nas_acl.Common.{
  CommonData, Scalar, empty_data, scalar_data, bytes_data, iflist_data, take, memcpy,
}
use sonic_nas_acl.CpsMap.{MapData, DataType}
use sonic_nas_acl.Env.{Hal, IfInfo, IntType}
use sonic_nas_acl.Map.{Map}
use sonic_nas_acl.Result.{ok, err, attr_val}
use sonic_nas_acl.Utl.{nas_acl_utl_ifidx_to_ndi_port}

abbrev pub table_data : Map ℕ ℕ → CommonData
table_data m = record empty_data { ndi_obj_id_table = m }

-- The items of a list of object ids with their tables.
abbrev pub pair_items : Map ℕ (Map ℕ ℕ) → List CommonData
pair_items [] = []
pair_items ((oid, tbl) ∷ ps) = scalar_data (Scalar.obj_id oid) ∷ table_data tbl ∷ pair_items ps

-- The value of an attribute of this type and length.
abbrev pub FitsType : DataType → ℕ → CommonData → Type 0
FitsType DataType.u8 len d = (n : ℕ) × (d ≡ scalar_data (Scalar.u8 n))
FitsType DataType.u16 len d = (n : ℕ) × (d ≡ scalar_data (Scalar.u16 n))
FitsType DataType.u32 len d = (n : ℕ) × (d ≡ scalar_data (Scalar.u32 n))
FitsType DataType.ifindex len d = (n : ℕ) × (d ≡ scalar_data (Scalar.ifindex n))
FitsType DataType.bin len d = (bs : List ℕ) × (length bs ≡ len) × (d ≡ bytes_data bs)
FitsType DataType.iflist len d = (l : List ℕ) × (d ≡ iflist_data l)
FitsType DataType.obj_id len d = (n : ℕ) × (d ≡ scalar_data (Scalar.obj_id n))
FitsType DataType.opaque len d = (m : Map ℕ ℕ) × (d ≡ table_data m)
FitsType _ len d = ⊥

abbrev pub FitsAll : List (DataType × ℕ) → List CommonData → Type 0
FitsAll [] [] = Unit
FitsAll ((type, len) ∷ ms) (d ∷ ds) = FitsType type len d × FitsAll ms ds
FitsAll _ _ = ⊥

abbrev pub shape : List MapData → List (DataType × ℕ)
shape [] = []
shape (m ∷ ms) = (m.data_type, m.data_len) ∷ shape ms

abbrev pub IfidxResult : Hal → ℕ → Type 0
IfidxResult hal i =
    ((info : IfInfo) × (nas_acl_utl_ifidx_to_ndi_port hal i ≡ ok info))
    ⊎ (nas_acl_utl_ifidx_to_ndi_port hal i ≡ err attr_val)

pub ifidx_found :
    (hal : Hal) (i : ℕ) (info : IfInfo) (k : IntType)
    → hal i ≡ some info
    → info.int_type ≡ k
    → IfidxResult hal i
unfolding nas_acl_utl_ifidx_to_ndi_port
ifidx_found hal i info IntType.port found kind = inl (info, ground arith)
ifidx_found hal i info _ found kind = inr (ground arith)

pub ifidx_result : (hal : Hal) (i : ℕ) → IfidxResult hal i
unfolding nas_acl_utl_ifidx_to_ndi_port
ifidx_result hal i = elim (Option-cases (hal i)) [
  | inl missing ↦ inr (ground arith)
  | inr (info, found) ↦ ifidx_found hal i info info.int_type found refl
]

pub take_all : (bs : List ℕ) → take (length bs) bs ≡ bs
take_all [] = refl
take_all (b ∷ bs) = ap (◌∷◌ b) (take_all bs)

pub memcpy_exact : (n : ℕ) (bs : List ℕ) → length bs ≡ n → memcpy n bs ≡ ok bs
memcpy_exact n bs h = rw (← h) (ground (arith, take_all bs))

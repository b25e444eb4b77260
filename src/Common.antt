-- ===== src/Common.antt =====
-- sonic/nas_acl_common.h: the values that pass between CPS objects and filters or actions.
use sonic_nas_acl.Base.{
  ℕ, zero, suc, List, [], ◌∷◌, leb, if◌then◌else◌, length, get_elem?, none, some,
}
use sonic_nas_acl.Result.{Result, ok, err, out_of_range, undefined_behaviour}
use sonic_nas_acl.Map.{Map}

-- The union of nas_acl_common_data_t, by the member that was written last; `unset` is the value of
-- an initialiser `{}`.
pub data Scalar : Type 0 where
  unset : Scalar
  u8 u16 u32 u64 obj_id ifindex : ℕ → Scalar

-- nas_acl_common_data_t
pub record CommonData : Type 0 where
  pub scalar : Scalar
  pub ifindex_list : List ℕ
  pub ndi_obj_id_table : Map ℕ ℕ
  pub bytes : List ℕ

abbrev pub empty_data : CommonData
empty_data = record { scalar = unset; ifindex_list = []; ndi_obj_id_table = []; bytes = [] }

abbrev pub scalar_data : Scalar → CommonData
scalar_data s = record empty_data { scalar = s }

abbrev pub bytes_data : List ℕ → CommonData
bytes_data bs = record empty_data { bytes = bs }

abbrev pub iflist_data : List ℕ → CommonData
iflist_data l = record empty_data { ifindex_list = l }

-- Reading a member: another one than was written is undefined.
abbrev pub as_u8 : CommonData → Result ℕ
as_u8 d = elim d.scalar [ unset ↦ ok 0 | u8 n ↦ ok n | _ ↦ err undefined_behaviour ]

abbrev pub as_u16 : CommonData → Result ℕ
as_u16 d = elim d.scalar [ unset ↦ ok 0 | u16 n ↦ ok n | _ ↦ err undefined_behaviour ]

abbrev pub as_u32 : CommonData → Result ℕ
as_u32 d = elim d.scalar [ unset ↦ ok 0 | u32 n ↦ ok n | _ ↦ err undefined_behaviour ]

abbrev pub as_u64 : CommonData → Result ℕ
as_u64 d = elim d.scalar [ unset ↦ ok 0 | u64 n ↦ ok n | _ ↦ err undefined_behaviour ]

abbrev pub as_obj_id : CommonData → Result ℕ
as_obj_id d = elim d.scalar [ unset ↦ ok 0 | obj_id n ↦ ok n | _ ↦ err undefined_behaviour ]

abbrev pub as_ifindex : CommonData → Result ℕ
as_ifindex d = elim d.scalar [ unset ↦ ok 0 | ifindex n ↦ ok n | _ ↦ err undefined_behaviour ]

-- `val_list.at (i)`
abbrev pub item : List CommonData → ℕ → Result CommonData
item l i = elim (get_elem? l i) [ none ↦ err out_of_range | some d ↦ ok d ]

abbrev pub take : ℕ → List ℕ → List ℕ
take zero bs = []
take (suc n) [] = []
take (suc n) (b ∷ bs) = b ∷ take n bs

-- `memcpy (dest, bytes.data (), n)`: a read past the end of the vector is undefined.
abbrev pub memcpy : ℕ → List ℕ → Result (List ℕ)
memcpy n bs = if leb n (length bs) then ok (take n bs) else err undefined_behaviour

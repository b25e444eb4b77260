-- ===== src/Filter/Layout.antt =====
-- The values that fit a row of the filter map, and what a row does with them.
use sonic_nas_acl.Base.{◌≡◌, ◌⊎◌, List, [], ◌∷◌, ◌++◌}
use sonic_nas_acl.Common.{CommonData, Scalar, scalar_data, iflist_data}
use sonic_nas_acl.CpsMap.{DataType, FilterFn, FilterInfo}
use sonic_nas_acl.Filter.{Filter, blank_filter}
use sonic_nas_acl.Filter.Values.{FilterEnv, call_set_fn, call_get_fn}
use sonic_nas_acl.Result.{ok, err, attr_val}
use sonic_nas_acl.Types.{MatchType}
use sonic_nas_acl.Layout.{FitsAll, shape}

-- The layout of a row: an embedded value has its children, any other is one item.
abbrev pub Layout : DataType → FilterInfo → List CommonData → Type 0
Layout DataType.embedded info vals = FitsAll (shape info.child_list) vals
Layout _ info vals = FitsAll (shape (info.val ∷ [])) vals

abbrev pub FitsInfo : FilterInfo → List CommonData → Type 0
FitsInfo info vals = Layout info.val.data_type info vals

-- What is read back: a number that is not embedded gets the mask 0 that was never set, and an empty
-- list of interfaces gives no item.
abbrev pub read_back_as : DataType → List CommonData → List CommonData
read_back_as DataType.u8 vals = vals ++ scalar_data (Scalar.u8 0) ∷ []
read_back_as DataType.iflist (d ∷ ds) = elim d.ifindex_list [
  | [] ↦ []
  | i ∷ is ↦ iflist_data (i ∷ is) ∷ []
]
read_back_as _ vals = vals

abbrev pub read_back : FilterInfo → List CommonData → List CommonData
read_back info vals = read_back_as info.val.data_type vals

-- The methods that check more than the layout.
abbrev pub MayRefuse : FilterFn → Type 0
MayRefuse FilterFn.ip_type = Unit
MayRefuse FilterFn.ip_frag = Unit
MayRefuse FilterFn.ifindex = Unit
MayRefuse _ = ⊥

abbrev pub Stores : FilterEnv → MatchType → FilterInfo → List CommonData → Type 0
Stores e t info vals =
    ((f : Filter) × (call_set_fn e info.set_fn vals (blank_filter t) ≡ ok f)
      × (call_get_fn e info.get_fn f ≡ ok (read_back info vals)))
    ⊎ (MayRefuse info.set_fn × (call_set_fn e info.set_fn vals (blank_filter t) ≡ err attr_val))

abbrev pub RowStores : FilterEnv → MatchType → FilterInfo → Type 0
RowStores e t info = (vals : List CommonData) → FitsInfo info vals → Stores e t info vals

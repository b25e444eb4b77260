-- ===== src/Action/Layout.antt =====
-- The values that fit a row of the action map, and what a row does with them.
use sonic_nas_acl.Base.{
  ℕ, ◌≡◌, ◌⊎◌, Bool, true, false, Option, none, some, List, [], ◌∷◌, nat_eq, ◌==◌, if◌then◌else◌,
}
use sonic_nas_acl.Action.{Action, blank_action}
use sonic_nas_acl.Action.Calls.{call_set_fn, call_get_fn}
use sonic_nas_acl.Action.Values.{ActionEnv}
use sonic_nas_acl.Common.{CommonData, iflist_data}
use sonic_nas_acl.CpsMap.{DataType, ActionFn, ActionInfo}
use sonic_nas_acl.Env.{Hal, IntType}
use sonic_nas_acl.Layout.{FitsAll, shape, pair_items}
use sonic_nas_acl.Map.{Map, find}
use sonic_nas_acl.Result.{ok, err, attr_val}
use sonic_nas_acl.Types.{ActionType}

-- A row without a value has nothing to store.
abbrev pub Layout : DataType → ActionInfo → List CommonData → Type 0
Layout DataType.nothing info vals = ⊥
Layout DataType.embedded info vals = FitsAll (shape info.child_list) vals
Layout DataType.embedded_list info vals = (ps : Map ℕ (Map ℕ ℕ)) × (vals ≡ pair_items ps)
Layout _ info vals = FitsAll (shape (info.val ∷ [])) vals

abbrev pub FitsInfo : ActionInfo → List CommonData → Type 0
FitsInfo info vals = Layout info.val.data_type info vals

-- The table that the last of the pairs for an id has.
abbrev pub last_table : ℕ → Map ℕ (Map ℕ ℕ) → Option (Map ℕ ℕ)
last_table oid [] = none
last_table oid ((i, tbl) ∷ ps) = elim (last_table oid ps) [
  | some later ↦ some later
  | none ↦ if i == oid then some tbl else none
]

abbrev pub is_lag : Hal → ℕ → Bool
is_lag hal i = elim (hal i) [
  | none ↦ false
  | some info ↦ elim info.int_type [ IntType.lag ↦ true | _ ↦ false ]
]

abbrev pub without_lags : Hal → List ℕ → List ℕ
without_lags hal [] = []
without_lags hal (i ∷ is) =
    let rest = without_lags hal is in if is_lag hal i then rest else i ∷ rest

abbrev pub list_item : List ℕ → List CommonData
list_item [] = []
list_item (i ∷ is) = iflist_data (i ∷ is) ∷ []

-- What is read back: a list of interfaces comes without its LAGs, and a list of object ids has
-- each id once, with the last table that was given for it.
abbrev pub ReadsBack : DataType → Hal → List CommonData → List CommonData → Type 0
ReadsBack DataType.iflist hal (d ∷ ds) back = back ≡ list_item (without_lags hal d.ifindex_list)
ReadsBack DataType.embedded_list hal vals back =
    (ps : Map ℕ (Map ℕ ℕ)) × (tbl : Map ℕ (Map ℕ ℕ)) × (vals ≡ pair_items ps)
    × (back ≡ pair_items tbl)
    × ((oid : ℕ) → find oid tbl ≡ last_table oid ps)
ReadsBack _ hal vals back = back ≡ vals

-- The methods that check more than the layout.
abbrev pub MayRefuse : Option ActionFn → Type 0
MayRefuse (some ActionFn.pkt_action) = Unit
MayRefuse (some ActionFn.ifindex) = Unit
MayRefuse (some ActionFn.ifindex_list) = Unit
MayRefuse _ = ⊥

abbrev pub Stores : ActionEnv → ActionType → ActionInfo → List CommonData → Type 0
Stores e t info vals =
    ((a : Action) × (back : List CommonData) × (call_set_fn e info.set_fn vals (blank_action t)
        ≡ ok a)
      × (call_get_fn e info.get_fn a ≡ ok back)
      × ReadsBack info.val.data_type e.hal vals back)
    ⊎ (MayRefuse info.set_fn × (call_set_fn e info.set_fn vals (blank_action t) ≡ err attr_val))

abbrev pub RowStores : ActionEnv → ActionType → ActionInfo → Type 0
RowStores e t info = (vals : List CommonData) → FitsInfo info vals → Stores e t info vals

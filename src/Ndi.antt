-- ===== src/Ndi.antt =====
-- The calls of the NDI library that the objects make, with the structures of its header that they
-- fill. `W` is the state of the NPUs.
use sonic_nas_acl.Base.{ℕ, Bool, List}
use sonic_nas_acl.Action.{NdiAction}
use sonic_nas_acl.Filter.{NdiFilter}
use sonic_nas_acl.Object.{Stage}
use sonic_nas_acl.Result.{Result, ok, err, ndi}
use sonic_nas_acl.Types.{MatchType}

-- `failed rc` where the return code is not STD_ERR_OK.
pub data Reply (A : Type 0) : Type 0 where
  done : A → Reply A
  failed : ℕ → Reply A

-- `throw nas::base_exception {rc, ...}` where the call failed.
unfoldable pub checked : {A : Type 0} → Reply A → Result A
checked (done a) = ok a
checked (failed rc) = err (ndi rc)

-- ndi_acl_table_t
pub record NdiTable : Type 0 where
  pub filter_count : ℕ
  pub filter_list : List MatchType
  pub stage : Stage
  pub priority : ℕ

-- ndi_acl_counter_t
pub record NdiCounter : Type 0 where
  pub table_id : ℕ
  pub enable_pkt_count : Bool
  pub enable_byte_count : Bool

-- ndi_acl_entry_t, with the lists that its counts are the lengths of.
pub record NdiEntry : Type 0 where
  pub table_id : ℕ
  pub priority : ℕ
  pub filter_list : List NdiFilter
  pub action_list : List NdiAction

pub record Ndi (W : Type 0) : Type 0 where
  pub table_create : ℕ → NdiTable → W → Reply ℕ × W
  pub table_delete : ℕ → ℕ → W → Reply (Unit {0}) × W
  pub table_set_priority : ℕ → ℕ → ℕ → W → Reply (Unit {0}) × W
  pub counter_create : ℕ → NdiCounter → W → Reply ℕ × W
  pub counter_delete : ℕ → ℕ → W → Reply (Unit {0}) × W
  pub counter_get_pkt_count : ℕ → ℕ → W → Reply ℕ
  pub counter_get_byte_count : ℕ → ℕ → W → Reply ℕ
  pub counter_set_pkt_count : ℕ → ℕ → ℕ → W → Reply (Unit {0}) × W
  pub counter_set_byte_count : ℕ → ℕ → ℕ → W → Reply (Unit {0}) × W
  pub entry_create : ℕ → NdiEntry → W → Reply ℕ × W
  pub entry_delete : ℕ → ℕ → W → Reply (Unit {0}) × W
  pub entry_set_priority : ℕ → ℕ → ℕ → W → Reply (Unit {0}) × W

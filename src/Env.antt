-- ===== src/Env.antt =====
-- What the component calls and does not implement: the id generator and the base object of the NAS
-- library, the interface table of the HAL, and constants of generated or foreign headers. Each is a
-- parameter with the behaviour that the code relies on as laws.
use sonic_nas_acl.Base.{
  ℕ, ◌≡◌, Bool, false, true, ◌&&◌, ◌||◌, not, Option, List, ◌==◌, nat_eq, ℕ_discrete,
}
use sonic_nas_acl.Result.{Result, ok}

-- nas::id_generator_t. `in_use` is the set of the ids that are handed out.
pub record IdGenerator (G : Type 0) : Type 0 where
  pub fresh : ℕ → G
  pub alloc_id : G → Result (ℕ × G)
  pub reserve_id : ℕ → G → Bool × G
  pub release_id : ℕ → G → G
  pub in_use : G → ℕ → Bool
  pub fresh_unused : (limit j : ℕ) → in_use (fresh limit) j ≡ false
  pub alloc_unused : (g g' : G) (i : ℕ) → alloc_id g ≡ ok (i, g') → in_use g i ≡ false
  pub alloc_in_use :
      (g g' : G) (i j : ℕ) → alloc_id g ≡ ok (i, g') → in_use g' j ≡ (i == j || in_use g j)
  pub reserve_result : (i : ℕ) (g : G) → (reserve_id i g).0 ≡ not (in_use g i)
  pub reserve_in_use : (i j : ℕ) (g : G) → in_use (reserve_id i g).1 j ≡ (i == j || in_use g j)
  pub release_in_use : (i j : ℕ) (g : G) → in_use (release_id i g) j ≡ (not (i == j) && in_use g j)

-- The attributes that objects mark as dirty, by the names of the generated header.
pub data Attr : Type 0 where
  entry_priority entry_match entry_action : Attr
  table_stage table_priority table_allowed_match_fields : Attr
  counter_types npu_id_list : Attr
  other_attr : ℕ → Attr

unfoldable pub Attr-discrete : Discrete Attr
unfolding ℕ_discrete
Attr-discrete = hlevel ℕ_discrete

-- nas::base_obj_t, as far as its subclasses read and change it.
pub record BaseObj (O : Type 0) : Type 0 where
  pub new_obj : O
  pub npu_list : O → List ℕ
  pub set_npu_list : List ℕ → O → O
  pub add_npu : ℕ → Bool → O → O
  pub reset_npus : O → O
  pub is_attr_dirty : Attr → O → Bool
  pub mark_attr_dirty : Attr → O → O
  pub is_created_in_ndi : O → Bool
  pub dirty_marked : (a : Attr) (o : O) → is_attr_dirty a (mark_attr_dirty a o) ≡ true
  pub dirty_kept :
      (a b : Attr) (o : O) → is_attr_dirty b o ≡ true → is_attr_dirty b (mark_attr_dirty a o) ≡ true
  pub created_marked :
      (a : Attr) (o : O) → is_created_in_ndi (mark_attr_dirty a o) ≡ is_created_in_ndi o
  pub npus_marked : (a : Attr) (o : O) → npu_list (mark_attr_dirty a o) ≡ npu_list o
  pub npus_set : (l : List ℕ) (o : O) → npu_list (set_npu_list l o) ≡ l

-- dn_hal_get_interface_info: the type of an interface, with the NPU and the port behind it.
pub data IntType : Type 0 where
  port lag : IntType
  other_type : ℕ → IntType

pub record IfInfo : Type 0 where
  pub int_type : IntType
  pub npu_id : ℕ
  pub port_id : ℕ

-- `none` where the call does not return STD_ERR_OK.
abbrev pub Hal : Type 0
Hal = ℕ → Option IfInfo

-- HAL_MAC_ADDR_LEN, sizeof (dn_ipv4_addr_t), sizeof (dn_ipv6_addr_t), NAS_MAX_VLAN_ID,
-- NAS_MAX_DOT1P and NAS_MAX_DSCP.
pub record Consts : Type 0 where
  pub mac_len : ℕ
  pub ipv4_len : ℕ
  pub ipv6_len : ℕ
  pub max_vlan_id : ℕ
  pub max_dot1p : ℕ
  pub max_dscp : ℕ

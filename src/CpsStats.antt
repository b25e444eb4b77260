-- ===== src/CpsStats.antt =====
-- src/nas_acl_cps_stats.cpp: the packets and the bytes that the entries of a counter matched.
pub mod Totals
use Prim.Native.String.{String}
use sonic_nas_acl.Base.{
  ℕ, ◌+◌, ◌%◌, ◌^◌, Bool, true, false, ◌&&◌, ◌||◌, not, Option, none, some, List, [], ◌∷◌, nat_eq,
  ◌==◌, if◌then◌else◌,
}
use sonic_nas_acl.CpsApi.{CpsApi, CpsAttr, u32, u64, AttrId, named, attr_id_eq}
use sonic_nas_acl.CpsKey.{nas_acl_cps_key_get_obj_id, nas_acl_cps_key_set_obj_id}
use sonic_nas_acl.CpsTable.{and_then}
use sonic_nas_acl.Env.{BaseObj}
use sonic_nas_acl.IdSet.{add}
use sonic_nas_acl.NasCounter.{
  get_pkt_count_ndi, get_byte_count_ndi, set_pkt_count_ndi, set_byte_count_ndi,
}
use sonic_nas_acl.NasTable.{is_empty}
use sonic_nas_acl.Ndi.{Ndi}
use sonic_nas_acl.Object.{Counter}
use sonic_nas_acl.Request.{caught}
use sonic_nas_acl.Result.{Result, ok, err, ◌>>=◌, ◌>>◌, guard, mem, missing_key, missing_attr}
use sonic_nas_acl.Switch.{Switch, get_counter}

-- The attributes of a request: the NPUs, and the counts that it has.
pub record StatsAttrs : Type 0 where
  pub npu_list : List ℕ
  pub pkt_count : Option ℕ
  pub byte_count : Option ℕ

unfoldable pub stats_attr : AttrId → CpsAttr → StatsAttrs → StatsAttrs
stats_attr id a s =
    if id == named "BASE_ACL_STATS_NPU_ID_LIST"
    then record s { npu_list = add a.u32 s.npu_list }
    else if id == named "BASE_ACL_STATS_MATCHED_PACKETS"
    then record s { pkt_count = some a.u64 }
    else if id == named "BASE_ACL_STATS_MATCHED_BYTES"
    then record s { byte_count = some a.u64 }
    else s

unfoldable pub stats_attrs : List (AttrId × CpsAttr) → StatsAttrs → StatsAttrs
unfolding stats_attr
stats_attrs [] s = s
stats_attrs ((id, a) ∷ rest) s = stats_attrs rest (stats_attr id a s)

abbrev pub has_count : Option ℕ → Bool
has_count none = false
has_count (some _) = true

-- With nothing found for a SET that has neither count.
unfoldable pub extract_stats_attrs : {Ob : Type 0} ⦃api : CpsApi Ob⦄ → Bool → Ob → Option StatsAttrs
unfolding stats_attrs
extract_stats_attrs ⦃api⦄ is_set ob =
    let s =
      stats_attrs (api.attrs ob) (record { npu_list = []; pkt_count = none; byte_count = none }) in
    if is_set && not (has_count s.pkt_count || has_count s.byte_count) then none else some s

-- `uint64_t` sums; a count that could not be read is not added.
unfoldable pub plus_count : ℕ → Bool → Result ℕ → ℕ
plus_count total wanted (ok n) = if wanted then (total + n) % 2 ^ 64 else total
plus_count total wanted (err _) = total

module _ {Ob O W : Type 0} ⦃api : CpsApi Ob⦄ ⦃n : Ndi W⦄ (k : Counter O) (w : W)
    (pkts bytes : Bool) where
  -- The loop over the NPUs, for the counts that are wanted.
  unfoldable pub add_counts : List ℕ → Ob → ℕ → ℕ → Result (Ob × ℕ × ℕ)
  unfolding plus_count get_pkt_count_ndi get_byte_count_ndi
  add_counts [] ob total_pkt total_byte = ok (ob, total_pkt, total_byte)
  add_counts (npu ∷ npus) ob total_pkt total_byte = do
    let total_pkt' = plus_count total_pkt pkts (get_pkt_count_ndi npu k w)
    let total_byte' = plus_count total_byte bytes (get_byte_count_ndi npu k w)
    let (added, ob') = api.attr_add ob "BASE_ACL_STATS_NPU_ID_LIST" (u32 npu)
    let rest = add_counts npus ob' total_pkt' total_byte'
    if added then rest else err mem

module _ {Ob O : Type 0} ⦃api : CpsApi Ob⦄ where
  unfoldable pub nas_acl_stats_cps_key_init : Counter O → Ob → Bool × Ob
  unfolding nas_acl_cps_key_set_obj_id
  nas_acl_stats_cps_key_init k ob = and_then (api.init_key ob "BASE_ACL_STATS_OBJ") (λ ob1.
      and_then (nas_acl_cps_key_set_obj_id ob1 "BASE_ACL_STATS_TABLE_ID" k.table_id)
        (λ ob2. nas_acl_cps_key_set_obj_id ob2 "BASE_ACL_STATS_COUNTER_ID" k.counter_id))

module _ {Ob : Type 0} ⦃api : CpsApi Ob⦄ where
  unfoldable pub add_total : Bool → String → ℕ → Ob → Bool × Ob
  add_total wanted id n ob = if wanted then api.attr_add ob id (u64 n) else (true, ob)

module _ {Ob O W : Type 0} ⦃api : CpsApi Ob⦄ ⦃n : Ndi W⦄ ⦃b : BaseObj O⦄ (k : Counter O)
    (w : W) where
  -- With the filter's attributes. `fresh` is what cps_api_object_create returns, and `append` is
  -- cps_api_object_list_append; the result is the object that is appended.
  unfoldable pub stats_info : Option Ob → (Ob → Bool) → StatsAttrs → Result Ob
  unfolding add_counts add_total nas_acl_stats_cps_key_init
  stats_info none append s = err mem
  stats_info (some ob) append s = do
    let counted = has_count s.pkt_count || has_count s.byte_count
    let pkts = not counted || has_count s.pkt_count
    let bytes = not counted || has_count s.byte_count
    let npus = if is_empty s.npu_list then b.npu_list k.base else s.npu_list
    (ob1, total_pkt, total_byte) ← add_counts k w pkts bytes npus ob 0 0
    let (filled, ob2) =
        and_then (add_total pkts "BASE_ACL_STATS_MATCHED_PACKETS" total_pkt ob1) (λ o.
          and_then (add_total bytes "BASE_ACL_STATS_MATCHED_BYTES" total_byte o)
            (nas_acl_stats_cps_key_init k))
    guard (filled && append ob2) mem >> ok ob2

  unfoldable pub nas_acl_stats_info_get : Option Ob → (Ob → Bool) → Option Ob → Result Ob
  unfolding stats_info extract_stats_attrs
  nas_acl_stats_info_get fresh append none =
      stats_info fresh append (record { npu_list = []; pkt_count = none; byte_count = none })
  nas_acl_stats_info_get fresh append (some filtr_obj) =
      elim (extract_stats_attrs false filtr_obj) [
        | none ↦ err mem
        | some s ↦ stats_info fresh append s
      ]

module _ {O W : Type 0} ⦃n : Ndi W⦄ (k : Counter O) where
  -- `if (is_set) { set the count }`
  abbrev set_count : Option ℕ → (ℕ → W → Result (Unit {0}) × W) → W → Result (Unit {0}) × W
  set_count none call w = (ok tt, w)
  set_count (some c) call w = call c w

  -- The statements after a call, which an exception skips.
  abbrev after : Result (Unit {0}) × W → (W → Result (Unit {0}) × W) → Result (Unit {0}) × W
  after (ok _, w) rest = rest w
  after (err x, w) rest = (err x, w)

  -- The loop over the NPUs, up to the first exception.
  unfoldable pub set_counts : StatsAttrs → List ℕ → W → Result (Unit {0}) × W
  unfolding set_pkt_count_ndi set_byte_count_ndi
  set_counts s [] w = (ok tt, w)
  set_counts s (npu ∷ npus) w =
      after (set_count s.pkt_count (λ c. set_pkt_count_ndi npu c k) w) (λ w1.
        after (set_count s.byte_count (λ c. set_byte_count_ndi npu c k) w1)
          (λ w2. set_counts s npus w2))

module _ {Ob G O W : Type 0} ⦃api : CpsApi Ob⦄ ⦃n : Ndi W⦄ ⦃b : BaseObj O⦄ (obj : Ob)
    (sw : Switch G O) (w : W) where
  unfoldable pub set_stats_of : ℕ → ℕ → Result (Unit {0}) × W
  unfolding extract_stats_attrs get_counter set_counts
  set_stats_of table_id counter_id = elim (extract_stats_attrs true obj) [
    | none ↦ (err missing_attr, w)
    | some s ↦ elim (get_counter table_id counter_id sw) [
      | err x ↦ (err x, w)
      | ok k ↦
          let npus = if is_empty s.npu_list then b.npu_list k.base else s.npu_list in
          set_counts k s npus w
    ]
  ]

  unfoldable pub nas_acl_stats_set : Result (Unit {0}) × W
  unfolding nas_acl_cps_key_get_obj_id set_stats_of
  nas_acl_stats_set = elim (nas_acl_cps_key_get_obj_id obj "BASE_ACL_STATS_TABLE_ID") [
    | none ↦ (err missing_key, w)
    | some table_id ↦ elim (nas_acl_cps_key_get_obj_id obj "BASE_ACL_STATS_COUNTER_ID") [
      | none ↦ (err missing_key, w)
      | some counter_id ↦ set_stats_of table_id counter_id
    ]
  ]

-- ===== src/NasEntry/Npus.antt =====
-- The NPUs of an entry when it is created and modified, and what adding a filter does.
use sonic_nas_acl.Base.{
  ℕ, ◌≡◌, refl, Bool, true, false, ◌&&◌, not, none, some, List, [], ◌∷◌, arith, nat_eq, nat_beq_iff,
  ◌==◌, if◌then◌else◌, inl, inr, Bool-cases,
}
use sonic_nas_acl.Env.{BaseObj, Hal, IfInfo, entry_match}
use sonic_nas_acl.Filter.{Filter, is_npu_specific}
use sonic_nas_acl.Filter.Ndi.{get_npu_list, npus_of}
use sonic_nas_acl.IdSet.{contains, add, contains-add}
use sonic_nas_acl.Map.{find, find-put}
use sonic_nas_acl.NasEntry.{
  all_contained, npu_list, validate_counter_npus, commit_create, commit_modify, add_filter,
  add_npu_filter, store_filter,
}
use sonic_nas_acl.NasTable.{is_empty, is_filter_allowed}
use sonic_nas_acl.Object.{Table, Entry}
use sonic_nas_acl.Result.{Result, ok, Result-cases, ◌>>◌}
use sonic_nas_acl.Switch.{Switch}
use sonic_nas_acl.Utl.{nas_acl_utl_ifidx_to_ndi_port}
use sonic_nas_acl.Types.{MatchType, match_eq, match_beq_iff}

all_contained_lem :
    (ns have : List ℕ)
    → all_contained ns have ≡ true
    → (n : ℕ) → contains n ns ≡ true
    → contains n have ≡ true
unfolding all_contained contains
all_contained_lem [] have within n listed = cc
all_contained_lem (m ∷ ns) have within n listed =
    ground (arith, nat_beq_iff m n, all_contained_lem ns have (ground arith) n)

all_contained_more :
    (ns have : List ℕ)
    → ((n : ℕ) → contains n ns ≡ true → contains n have ≡ true)
    → all_contained ns have ≡ true
unfolding all_contained contains
all_contained_more [] have within = refl
all_contained_more (m ∷ ns) have within =
    ground (
      arith,
      within m,
      nat_beq_iff m m,
      all_contained_more ns have (λ n h. within n (ground arith)),
    )

npus_of_kept :
    (hal : Hal) (is npus out : List ℕ) (n : ℕ)
    → npus_of hal is npus ≡ ok out
    → contains n npus ≡ true
    → contains n out ≡ true
unfolding npus_of
npus_of_kept hal [] npus out n p there = ground arith
npus_of_kept hal (i ∷ is) npus out n p there =
    elim (Result-cases (nas_acl_utl_ifidx_to_ndi_port hal i)) [
      | inl (x, failed) ↦ absurd (ground arith)
      | inr (intf, found) ↦
          npus_of_kept hal is (add intf.npu_id npus) out n (ground arith)
            (ground (arith, contains-add intf.npu_id n npus))
    ]

-- Every interface of the list is known, and its NPU is among the result.
npus_of_listed :
    (hal : Hal) (is npus out : List ℕ) (j : ℕ)
    → npus_of hal is npus ≡ ok out
    → contains j is ≡ true
    → (intf : IfInfo) × (nas_acl_utl_ifidx_to_ndi_port hal j ≡ ok intf)
      × (contains intf.npu_id out ≡ true)
unfolding npus_of contains
npus_of_listed hal [] npus out j p listed = cc
npus_of_listed hal (i ∷ is) npus out j p listed =
    elim (Result-cases (nas_acl_utl_ifidx_to_ndi_port hal i)) [
      | inl (x, failed) ↦ absurd (ground arith)
      | inr (intf, found) ↦ elim (Bool-cases (i == j)) [
        | inl same ↦ (
          intf,
          ground (arith, nat_beq_iff i j),
          npus_of_kept hal is (add intf.npu_id npus) out intf.npu_id (ground arith) (
              ground (
                arith,
                contains-add intf.npu_id intf.npu_id npus,
                nat_beq_iff intf.npu_id intf.npu_id,
              )),
        )
        | inr other ↦
            npus_of_listed hal is (add intf.npu_id npus) out j (ground arith) (ground arith)
      ]
    ]

module _ {G O : Type 0} ⦃b : BaseObj O⦄ (t : Table O) (e : Entry O) (sw : Switch G O) where
  -- For an entry that has its own list of NPUs and filters that need NPUs, commit_create does
  -- what it would do without the check of the list against the filters: it validates the NPUs of
  -- the counter and commits, whatever NPUs the list lacks.
  pub commit_create-npus :
      (base_commit : Entry O → Result (Entry O))
      → e.following_table_npus ≡ false
      → is_empty e.filter_npus ≡ false
      → commit_create base_commit t e sw ≡ (validate_counter_npus e sw >> base_commit e)
  unfolding commit_create npu_list
  commit_create-npus base_commit own needed =
      ground (arith, all_contained_more e.filter_npus e.filter_npus (λ n h. h))

  -- When commit_modify succeeds for an entry that has its own list of NPUs, and the list is not
  -- empty, then the list contains every NPU that the filters of the entry need.
  pub commit_modify-npus :
      (base_commit : Entry O → Entry O → Result (Entry O)) (e_orig e' : Entry O)
      → commit_modify base_commit t e_orig e sw ≡ ok e'
      → e.following_table_npus ≡ false
      → is_empty (b.npu_list e.base) ≡ false
      → (n : ℕ) → contains n e.filter_npus ≡ true
      → contains n (b.npu_list e.base) ≡ true
  unfolding commit_modify
  commit_modify-npus base_commit e_orig e' done own some_npus n needed =
      all_contained_lem e.filter_npus (b.npu_list e.base) (ground arith) n needed

module _ {O : Type 0} ⦃b : BaseObj O⦄ (hal : Hal) (t : Table O) (f : Filter) (reset : Bool)
    (e e' : Entry O) where
  -- Whether the call first drops the filters that were there.
  abbrev pub drops_filters : Bool
  drops_filters = reset && not (b.is_attr_dirty entry_match e.base)

  -- When add_filter succeeds, the table allows the type of the filter; the filter is in the entry
  -- under its type; the filters of other types are those from before, or none if the call resets
  -- and the match attribute was not dirty yet; and the match attribute is dirty.
  pub add_filter_lem :
      add_filter hal t f reset e ≡ (e', ok tt)
      → (is_filter_allowed f.filter_type t ≡ true)
        × ((j : MatchType)
            → find j e'.flist ≡ (
                if f.filter_type == j
                then some f
                else if drops_filters
                then none
                else find j e.flist))
        × (b.is_attr_dirty entry_match e'.base ≡ true)
  unfolding add_filter add_npu_filter store_filter find
  add_filter_lem done = (
    ground arith,
    λ j. ground (
      arith,
      find-put f.filter_type j f e.flist,
      find-put f.filter_type j f [],
      match_beq_iff f.filter_type j,
    ),
    ground (arith, b.dirty_marked entry_match e.base),
  )

  -- When add_filter of a filter on in-ports succeeds, then for every interface in the list of the
  -- filter the lookup of the interface succeeds, its NPU is in the NPU list of the table, and its
  -- NPU is among the NPUs that the entry keeps for its filters.
  pub add_filter-npus :
      is_npu_specific f.filter_type ≡ true
      → add_filter hal t f reset e ≡ (e', ok tt)
      → (i : ℕ) → contains i f.ifindex_list ≡ true
      → (intf : IfInfo) × (nas_acl_utl_ifidx_to_ndi_port hal i ≡ ok intf)
        × (contains intf.npu_id (b.npu_list t.base) ≡ true)
        × (contains intf.npu_id e'.filter_npus ≡ true)
  unfolding add_filter add_npu_filter store_filter get_npu_list
  add_filter-npus specific done i listed =
      let npus : npus_of hal f.ifindex_list [] ≡ ok e'.filter_npus = ground arith in
      let within : all_contained e'.filter_npus (b.npu_list t.base) ≡ true = ground arith in
      let (intf, found, needed) =
        npus_of_listed hal f.ifindex_list [] e'.filter_npus i npus listed in
      (
        intf,
        found,
        all_contained_lem e'.filter_npus (b.npu_list t.base) within intf.npu_id needed,
        needed,
      )

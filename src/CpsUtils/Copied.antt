-- ===== src/CpsUtils/Copied.antt =====
-- What nas_acl_copy_data_from_obj gives for a row that can be read: values with the layout of the
-- row, or an error that the request answers with.
use sonic_nas_acl.Base.{
  ℕ, ◌≡◌, refl, sym, subst, inl, inr, List, [], ◌∷◌, ◌++◌, arith, Option-cases,
}
use sonic_nas_acl.Common.{CommonData, iflist_data}
use sonic_nas_acl.CpsApi.{CpsApi, CpsAttr, AttrId, AttrPath}
use sonic_nas_acl.CpsMap.{MapData, DataType}
use sonic_nas_acl.CpsUtils.Fits.{IsReadable, AllReadable, children_fit, value_fits}
use sonic_nas_acl.CpsUtils.Read.{
  get_data_from_obj, get_child_attrs_from_obj, get_lists, get_child_list_from_obj, split_last,
  iflist_level, interfaces, copy_iflist_data_from_obj, copy_non_iflist_data_from_obj,
  nas_acl_copy_data_from_obj,
}
use sonic_nas_acl.CpsUtils.Reports.{
  Reports, bind-Reports, ok-Reports, children-Reports, value-Reports,
}
use sonic_nas_acl.Layout.{FitsAll, shape, pair_items}
use sonic_nas_acl.Map.{Map}
use sonic_nas_acl.Result.{ok, ◌>>=◌, >>=-eq-ok}

abbrev pub pair_shape : List (DataType × ℕ)
pair_shape = (DataType.obj_id, 8) ∷ (DataType.opaque, 0) ∷ []

-- A row whose values have a layout that FitsAs describes.
abbrev pub IsReadableAs : DataType → MapData → List MapData → Type 0
IsReadableAs DataType.embedded m ms = AllReadable (shape ms)
IsReadableAs DataType.embedded_list m ms = shape ms ≡ pair_shape
IsReadableAs DataType.iflist m ms = Unit
IsReadableAs _ m ms = AllReadable (shape (m ∷ []))

abbrev pub FitsAs : DataType → MapData → List MapData → List CommonData → Type 0
FitsAs DataType.nothing m ms vals = ⊥
FitsAs DataType.embedded m ms vals = FitsAll (shape ms) vals
FitsAs DataType.embedded_list m ms vals = (ps : Map ℕ (Map ℕ ℕ)) × (vals ≡ pair_items ps)
FitsAs _ m ms vals = FitsAll (shape (m ∷ [])) vals

split_last-append : (path : AttrPath) (id : AttrId) → split_last (path ++ id ∷ []) ≡ ok (path, id)
split_last-append [] id = refl
split_last-append (a ∷ []) id = refl
split_last-append (a ∷ b ∷ path) id = ground (arith, split_last-append (b ∷ path) id)

one_pair :
    (vals : List CommonData)
    → FitsAll pair_shape vals
    → (oid : ℕ) × (tbl : Map ℕ ℕ) × (vals ≡ pair_items ((oid, tbl) ∷ []))
one_pair [] h = absurd h
one_pair (d ∷ []) h = absurd h.1
one_pair (d ∷ m ∷ []) ((n, p), ((tbl, q), _)) = (n, tbl, rw (p, q) refl)
one_pair (d ∷ m ∷ x ∷ r) h = absurd h.1.1

module _ {Ob : Type 0} ⦃api : CpsApi Ob⦄ (ob : Ob) (path : AttrPath) where
  lists_fit :
      (ms : List MapData) (items : List (AttrId × CpsAttr)) (vals : List CommonData)
      → shape ms ≡ pair_shape
      → get_lists ob path ms items ≡ ok vals
      → (ps : Map ℕ (Map ℕ ℕ)) × (vals ≡ pair_items ps)
  unfolding get_lists
  lists_fit ms [] vals h p = ([], ground arith)
  lists_fit ms ((i, a) ∷ rest) vals h p =
      let (ds, got, after) =
        >>=-eq-ok (get_child_attrs_from_obj ob (path ++ i ∷ []) ms) _ {b = vals} p in
      let (es, more, done) = >>=-eq-ok (get_lists ob path ms rest) _ {b = vals} after in
      let fits =
        children_fit ob (path ++ i ∷ []) ms ds (subst AllReadable (sym h) (tt, (tt, tt))) got in
      let (oid, tbl, first) = one_pair ds (subst (λ l. FitsAll l ds) h fits) in
      let (ps, others) = lists_fit ms rest es h more in ((oid, tbl) ∷ ps, ground arith)

  lists-Reports :
      (ms : List MapData) (items : List (AttrId × CpsAttr))
      → shape ms ≡ pair_shape
      → Reports (get_lists ob path ms items)
  unfolding get_lists
  lists-Reports ms [] h = ok-Reports []
  lists-Reports ms ((i, a) ∷ rest) h =
      bind-Reports (get_child_attrs_from_obj ob (path ++ i ∷ []) ms) _
        (children-Reports ob (path ++ i ∷ []) ms (subst AllReadable (sym h) (tt, (tt, tt))))
        (λ ds got.
          bind-Reports (get_lists ob path ms rest) _ (lists-Reports ms rest h)
            (λ es more. ok-Reports (ds ++ es)))

module _ {Ob : Type 0} ⦃api : CpsApi Ob⦄ (ob : Ob) (path : AttrPath) (id : AttrId) where
  pub iflist_fits :
      (len : ℕ) (vals : List CommonData)
      → copy_iflist_data_from_obj ob (path ++ id ∷ []) ≡ ok vals
      → FitsAll ((DataType.iflist, len) ∷ []) vals
  unfolding copy_iflist_data_from_obj
  iflist_fits len vals p =
      let ((parent, i), split, after) = >>=-eq-ok (split_last (path ++ id ∷ [])) _ {b = vals} p in
      let (items, level, done) = >>=-eq-ok (iflist_level ob parent) _ {b = vals} after in
      subst (FitsAll ((DataType.iflist, len) ∷ [])) {x = iflist_data (interfaces i items) ∷ []}
        (ground arith) ((interfaces i items, refl), tt)

  level-Reports : (p : AttrPath) → Reports (iflist_level ob p)
  unfolding iflist_level
  level-Reports [] = ok-Reports (api.attrs ob)
  level-Reports (a ∷ p) = λ x q. ground arith

  iflist-Reports : Reports (copy_iflist_data_from_obj ob (path ++ id ∷ []))
  unfolding copy_iflist_data_from_obj
  iflist-Reports =
      bind-Reports (split_last (path ++ id ∷ [])) _
        (λ x p. ground (arith, split_last-append path id))
        (λ (parent, i) split.
          bind-Reports (iflist_level ob parent) _ (level-Reports parent)
            (λ items level. ok-Reports (iflist_data (interfaces i items) ∷ [])))

module _ {Ob : Type 0} ⦃api : CpsApi Ob⦄ (ob : Ob) (path : AttrPath) (m : MapData)
    (ms : List MapData) where
  single_fits :
      (vals : List CommonData)
      → IsReadable m.data_type m.data_len
      → (get_data_from_obj ob path m >>= λ d. ok (d ∷ [])) ≡ ok vals
      → FitsAll (shape (m ∷ [])) vals
  single_fits vals r p =
      let (d, got, done) = >>=-eq-ok (get_data_from_obj ob path m) _ {b = vals} p in
      subst (FitsAll (shape (m ∷ []))) {x = d ∷ []} (ground arith)
        ((value_fits ob path m m.data_type d refl r got, tt))

  list_fits :
      (vals : List CommonData)
      → shape ms ≡ pair_shape
      → get_child_list_from_obj ob path m ms ≡ ok vals
      → (ps : Map ℕ (Map ℕ ℕ)) × (vals ≡ pair_items ps)
  unfolding get_child_list_from_obj
  list_fits vals h p = elim (Option-cases (api.inside ob path)) [
    | inl missing ↦ ([], ground arith)
    | inr (items, found) ↦ lists_fit ob path ms items vals h (ground arith)
  ]

  list-Reports : shape ms ≡ pair_shape → Reports (get_child_list_from_obj ob path m ms)
  unfolding get_child_list_from_obj
  list-Reports h = λ x p. elim (Option-cases (api.inside ob path)) [
    | inl missing ↦ ground arith
    | inr (items, found) ↦ lists-Reports ob path ms items h x (ground arith)
  ]

module _ {Ob : Type 0} ⦃api : CpsApi Ob⦄ (ob : Ob) (path : AttrPath) (id : AttrId) (m : MapData)
    (ms : List MapData) where
  pub copied_fits :
      (type : DataType) (vals : List CommonData)
      → m.data_type ≡ type
      → IsReadableAs type m ms
      → nas_acl_copy_data_from_obj ob (path ++ id ∷ []) m ms ≡ ok vals
      → FitsAs type m ms vals
  unfolding nas_acl_copy_data_from_obj copy_non_iflist_data_from_obj
  copied_fits DataType.embedded vals is r p =
      children_fit ob (path ++ id ∷ []) ms vals r (ground arith)
  copied_fits DataType.embedded_list vals is r p =
      list_fits ob (path ++ id ∷ []) m ms vals r (ground arith)
  copied_fits DataType.iflist vals is r p =
      subst (λ type. FitsAll ((type, m.data_len) ∷ []) vals) (sym is)
        (iflist_fits ob path id m.data_len vals (ground arith))
  copied_fits DataType.nothing vals is (r, u) p = absurd (ground arith)
  copied_fits _ vals is (r, u) p = single_fits ob (path ++ id ∷ []) m ms vals r (ground arith)

  pub copied-Reports :
      (type : DataType)
      → m.data_type ≡ type
      → IsReadableAs type m ms
      → Reports (nas_acl_copy_data_from_obj ob (path ++ id ∷ []) m ms)
  unfolding nas_acl_copy_data_from_obj copy_non_iflist_data_from_obj
  copied-Reports DataType.embedded is r =
      λ x p. children-Reports ob (path ++ id ∷ []) ms r x (ground arith)
  copied-Reports DataType.embedded_list is r =
      λ x p. list-Reports ob (path ++ id ∷ []) m ms r x (ground arith)
  copied-Reports DataType.iflist is r = λ x p. iflist-Reports ob path id x (ground arith)
  copied-Reports _ is (r, u) = λ x p.
      bind-Reports (get_data_from_obj ob (path ++ id ∷ []) m) (λ d. ok (d ∷ []))
        (value-Reports ob (path ++ id ∷ []) m m.data_type refl r) (λ d got. ok-Reports (d ∷ [])) x
        (ground arith)

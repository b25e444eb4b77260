-- ===== src/NasTable/Fields.antt =====
-- Setting the match fields that a table allows.
use sonic_nas_acl.Base.{◌≡◌, refl, ◌∙◌, Bool, true, false, ◌&&◌, ◌||◌, List, [], ◌∷◌, arith}
use sonic_nas_acl.Env.{BaseObj, Consts, table_allowed_match_fields}
use sonic_nas_acl.FilterMap.{nas_acl_filter_is_type_valid}
use sonic_nas_acl.IdSet.{contains, add, contains-add}
use sonic_nas_acl.NasTable.{set_allowed_filter}
use sonic_nas_acl.Object.{Table}
use sonic_nas_acl.Result.{Result, ok, ◌>>=◌}
use sonic_nas_acl.Types.{MatchType, match_eq}

module _ (c : Consts) where
  abbrev pub all_valid : List MatchType → Bool
  all_valid [] = true
  all_valid (f ∷ fs) = nas_acl_filter_is_type_valid c f && all_valid fs

module _ {O : Type 0} ⦃b : BaseObj O⦄ (c : Consts) where
  -- The calls for a request that lists the fields.
  abbrev pub set_allowed_filters : List MatchType → Table O → Result (Table O)
  set_allowed_filters [] t = ok t
  set_allowed_filters (f ∷ fs) t = do t' ← set_allowed_filter c f t; set_allowed_filters fs t'

  -- With the attribute dirty, the fields join those that are there.
  set_more :
      (fs : List MatchType) (t : Table O)
      → b.is_created_in_ndi t.base ≡ false
      → b.is_attr_dirty table_allowed_match_fields t.base ≡ true
      → all_valid c fs ≡ true
      → (t' : Table O) × (set_allowed_filters fs t ≡ ok t')
        × ((f : MatchType)
            → contains f t'.allowed_filters ≡ (contains f fs || contains f t.allowed_filters))
  unfolding set_allowed_filter contains
  set_more [] t created dirty valid = (t, refl, λ f. refl)
  set_more (g ∷ fs) t created dirty valid =
      let next : Table O = record t { allowed_filters = add g t.allowed_filters } in
      let (t', done, has) = set_more fs next created dirty (ground arith) in
      (t', ground arith, λ f. ground (arith, has f, contains-add g f t.allowed_filters))

  -- When a request lists one or more valid match types for a table that is not created in the NDI
  -- and whose attribute was not dirty before, set_allowed_filter succeeds for each, and
  -- afterwards the table allows exactly the listed types.
  pub set_allowed_filters_lem :
      (g : MatchType) (fs : List MatchType) (t : Table O)
      → b.is_created_in_ndi t.base ≡ false
      → b.is_attr_dirty table_allowed_match_fields t.base ≡ false
      → all_valid c (g ∷ fs) ≡ true
      → (t' : Table O) × (set_allowed_filters (g ∷ fs) t ≡ ok t')
        × ((f : MatchType) → contains f t'.allowed_filters ≡ contains f (g ∷ fs))
  unfolding set_allowed_filter contains add
  set_allowed_filters_lem g fs t created clean valid =
      let next : Table O = record t {
        base = b.mark_attr_dirty table_allowed_match_fields t.base;
        allowed_filters = g ∷ [];
      } in
      let (t', done, has) =
        set_more fs next (b.created_marked table_allowed_match_fields t.base ∙ created)
          (b.dirty_marked table_allowed_match_fields t.base) (ground arith) in
      (t', ground arith, λ f. ground (arith, has f))

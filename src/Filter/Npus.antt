-- ===== src/Filter/Npus.antt =====
-- src/nas_acl_filter.cpp: the NPUs of a filter on ports, and the comparison of filters.
use sonic_nas_acl.Base.{
  ℕ, ◌≡◌, refl, Bool, true, false, ◌||◌, ◌⊎◌, inl, inr, List, [], ◌∷◌, arith, nat_eq, nat_beq_iff,
  is_yes_iff, Bool-cases,
}
use sonic_nas_acl.Filter.{Filter, NdiPort, NdiFilter-discrete}
use sonic_nas_acl.Filter.Ndi.{is_port, is_portlist, lists_equal, filter_ne}
use sonic_nas_acl.Types.{match_beq_iff}

abbrev pub has_ports : List NdiPort → Bool
has_ports [] = false
has_ports (_ ∷ _) = true

lists_equal_iff : (xs ys : List ℕ) → lists_equal xs ys ≡ true → xs ≡ ys
unfolding lists_equal
lists_equal_iff [] [] h = refl
lists_equal_iff [] (y ∷ ys) h = cc
lists_equal_iff (x ∷ xs) [] h = cc
lists_equal_iff (x ∷ xs) (y ∷ ys) h = ground (arith, nat_beq_iff x y, lists_equal_iff xs ys)

module _ (f rhs : Filter) where
  -- What the filter matches on: the interfaces, or else the values.
  abbrev pub Matches : Type 0
  Matches =
      (f.filter_type ≡ rhs.filter_type)
      × (((is_port f.values_type || is_portlist f.values_type ≡ true)
            × (f.ifindex_list ≡ rhs.ifindex_list))
          ⊎ ((is_port f.values_type || is_portlist f.values_type ≡ false)
              × (f.f_info ≡ rhs.f_info)))

  -- Two filters that operator!= does not tell apart have the same type, and the same list of
  -- interfaces if they match on ports, or else the same values, masks and kind.
  pub filter_ne-Matches : filter_ne f rhs ≡ false → Matches
  unfolding filter_ne
  filter_ne-Matches same = (
    ground (arith, match_beq_iff f.filter_type rhs.filter_type),
    elim (Bool-cases (is_port f.values_type || is_portlist f.values_type)) [
      | inl ports ↦ inl (ports, lists_equal_iff f.ifindex_list rhs.ifindex_list (ground arith))
      | inr values ↦
          inr (values, (is_yes_iff (NdiFilter-discrete f.f_info rhs.f_info)).0 (ground arith))
    ],
  )

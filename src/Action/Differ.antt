-- ===== src/Action/Differ.antt =====
-- src/nas_acl_action.cpp: the comparison of actions.
use sonic_nas_acl.Base.{ℕ, ◌≡◌, false, List, arith, is_yes_iff}
use sonic_nas_acl.Action.{Action, ActionKind, NdiAction-discrete}
use sonic_nas_acl.Action.Ndi.{action_ne, values_differ}
use sonic_nas_acl.Types.{action_beq_iff}

module _ (a : Action) (l : List ℕ) where
  -- For an action on a list of ports, operator!= does not tell it from the same action with any
  -- other list of ports.
  pub action_ne-portlist :
      a.values_type ≡ ActionKind.portlist → action_ne a (record a { ifindex_list = l }) ≡ false
  unfolding action_ne values_differ
  action_ne-portlist kind = ground (
    arith,
    action_beq_iff a.action_type a.action_type,
    is_yes_iff (NdiAction-discrete a.a_info a.a_info),
  )

-- ===== src/Types.antt =====
-- BASE_ACL_MATCH_TYPE_t and BASE_ACL_ACTION_TYPE_t, whose numbers are in a generated header: a
-- constructor for each name that the maps of src/nas_acl_cps_filter_map.cpp and
-- src/nas_acl_cps_action_map.cpp list, and one for the numbers that they do not list.
use sonic_nas_acl.Base.{ℕ, ◌≡◌, Bool, Eq, is_yes, is_yes_iff, ℕ_discrete, true, ◌↔◌}

pub data MatchType : Type 0 where
  src_ipv6 dst_ipv6 src_mac dst_mac src_ip dst_ip in_ports out_ports in_port out_port : MatchType
  outer_vlan_id outer_vlan_pri outer_vlan_cfi inner_vlan_id inner_vlan_pri : MatchType
  inner_vlan_cfi l4_src_port l4_dst_port ether_type ip_protocol dscp ttl tos ip_flags : MatchType
  tcp_flags ip_type ip_frag ipv6_flow_label tc ecn icmp_type icmp_code : MatchType
  other_match : ℕ → MatchType

pub data ActionType : Type 0 where
  packet_action redirect_port redirect_ip_nexthop flood mirror_ingress mirror_egress : ActionType
  set_counter set_policer decrement_ttl set_tc set_inner_vlan_id set_inner_vlan_pri : ActionType
  set_outer_vlan_id set_outer_vlan_pri set_src_mac set_dst_mac set_src_ip set_dst_ip : ActionType
  set_src_ipv6 set_dst_ipv6 set_dscp set_l4_src_port set_l4_dst_port set_cpu_queue : ActionType
  egress_mask redirect_port_list : ActionType
  other_action : ℕ → ActionType

unfoldable pub MatchType-discrete : Discrete MatchType
unfolding ℕ_discrete
MatchType-discrete = hlevel ℕ_discrete

unfoldable pub ActionType-discrete : Discrete ActionType
unfolding ℕ_discrete
ActionType-discrete = hlevel ℕ_discrete

unfoldable pub match_beq : MatchType → MatchType → Bool
unfolding MatchType-discrete
match_beq a b = is_yes (MatchType-discrete a b)

pub match_beq_iff : (a b : MatchType) → (match_beq a b ≡ true) ↔ (a ≡ b)
unfolding match_beq
match_beq_iff a b = is_yes_iff (MatchType-discrete a b)

unfoldable pub action_beq : ActionType → ActionType → Bool
unfolding ActionType-discrete
action_beq a b = is_yes (ActionType-discrete a b)

pub action_beq_iff : (a b : ActionType) → (action_beq a b ≡ true) ↔ (a ≡ b)
unfolding action_beq
action_beq_iff a b = is_yes_iff (ActionType-discrete a b)

instance abbrev pub match_eq : Eq MatchType
match_eq = record { beq = match_beq; beq_iff = match_beq_iff }

instance abbrev pub action_eq : Eq ActionType
action_eq = record { beq = action_beq; beq_iff = action_beq_iff }

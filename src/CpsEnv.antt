-- ===== src/CpsEnv.antt =====
-- What the CPS requests take from outside: the environments of filters and actions, and the numbers
-- of the generated header.
use sonic_nas_acl.Base.{ℕ, ◌≢◌}
use sonic_nas_acl.Env.{Consts}
use sonic_nas_acl.Action.Values.{ActionEnv}
use sonic_nas_acl.Filter.Values.{FilterEnv}
use sonic_nas_acl.Object.{Stage, CounterType}
use sonic_nas_acl.Types.{MatchType, ActionType}

pub record CpsEnv : Type 0 where
  pub filter_env : FilterEnv
  pub action_env : ActionEnv
  pub match_of : ℕ → MatchType
  pub match_number : MatchType → ℕ
  pub action_of : ℕ → ActionType
  pub action_number : ActionType → ℕ
  pub stage_of : ℕ → Stage
  pub stage_number : Stage → ℕ
  pub counter_type_of : ℕ → CounterType
  pub counter_type_number : CounterType → ℕ

-- The lengths of addresses are not 0.
pub record HaveSize (c : Consts) : Type 0 where
  pub mac : c.mac_len ≢ 0
  pub ipv4 : c.ipv4_len ≢ 0
  pub ipv6 : c.ipv6_len ≢ 0

-- ===== src/Request.antt =====
-- What the handlers of requests share: their result, the catch blocks around them, and the id guard
-- of a create request.
use sonic_nas_acl.Base.{ℕ, Option, none, some}
use sonic_nas_acl.Env.{IdGenerator}
use sonic_nas_acl.IdGuard.{IdGuard, alloc_guarded_id, reserve_guarded_id, destroy_guard}
use sonic_nas_acl.Result.{Result, ok, err, Error, ◌>>=◌, out_of_range, fail}
use sonic_nas_acl.Switch.{Switch}

-- The code that a handler returns, with the objects and the switch as it leaves them.
pub record Handled (Ob G O : Type 0) : Type 0 where
  pub rc : Result (Unit {0})
  pub obj : Ob
  pub prev : Ob
  pub sw : Switch G O

-- `catch (nas::base_exception& e)` and `catch (std::out_of_range& e)`.
abbrev pub caught : Error → Error
caught out_of_range = fail
caught x = x

module _ {G O : Type 0} ⦃gen : IdGenerator G⦄ where
  -- The id of a new object: the one that was passed in, whether or not it could be reserved, or a
  -- new one.
  unfoldable pub take_id : Option ℕ → IdGuard → Switch G O → Result (ℕ × IdGuard × Switch G O)
  unfolding alloc_guarded_id reserve_guarded_id
  take_id none g sw = alloc_guarded_id g sw
  take_id (some i) g sw = do (unused, g', sw') ← reserve_guarded_id i g sw; ok (i, g', sw')

  -- An exception leaves the scope of the guard.
  unfoldable pub unwind : {Ob : Type 0} → Ob → Ob → IdGuard → Switch G O → Error → Handled Ob G O
  unfolding destroy_guard
  unwind obj prev g sw x = elim (destroy_guard g sw) [
    | err y ↦ record { rc = err y; obj = obj; prev = prev; sw = sw }
    | ok sw' ↦ record { rc = err (caught x); obj = obj; prev = prev; sw = sw' }
  ]

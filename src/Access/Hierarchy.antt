-- ===== src/Access/Hierarchy.antt =====
-- The table of roles (users/services/authorization/role_hierarchy.py) as a ranking.
use goldy_telegram_bot.UserValues.{UserRole}
use goldy_telegram_bot.Result.{authorization, ok, err}
use goldy_telegram_bot.Prelude.{◌||◌, ◌==◌, if◌then◌else◌, ltb, leb, ℕ, ◌≡◌, [], ◌∷◌, arith}
use goldy_telegram_bot.Access.{
  can_manage_subordinate, can_manage_role, is_order_owner, can_manage_orders, any_of, authorize,
  UserManagementContext, RoleManagementContext, OrderAccessContext,
}

-- How much of the shop a role runs.
abbrev pub rank : UserRole → ℕ
rank UserRole.customer = 0
rank UserRole.manager = 1
rank UserRole.admin = 2

-- With the roles ranked customer, manager, administrator: a person may manage another, or hand out
-- a role, exactly if their own role ranks above the other person's role, or above the role handed
-- out.
pub hierarchy_is_rank :
    (c : UserManagementContext) (d : RoleManagementContext)
    → (can_manage_subordinate c ≡ ltb (rank c.target.role) (rank c.subject.role))
      × (can_manage_role d ≡ ltb (rank d.target_role) (rank d.subject.role))
unfolding can_manage_subordinate can_manage_role
hierarchy_is_rank c d = (ground arith, ground arith)

-- Access to an order by its owner or by staff is granted to its customer and to managers and
-- administrators, and refused to everybody else with an authorization error.
pub order_access :
    (c : OrderAccessContext)
    → authorize (any_of (is_order_owner ∷ can_manage_orders ∷ [])) c ≡ (
        if c.subject.id == c.order_customer_id || leb 1 (rank c.subject.role)
        then ok tt
        else err authorization)
unfolding authorize any_of is_order_owner can_manage_orders
order_access c = ground arith

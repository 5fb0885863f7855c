-- ===== src/Access.antt =====
-- domain/users/services and domain/orders/services/authorization: who may do what. A permission is
-- the test that it answers by; a context of one person and one order stands for the person's id,
-- their role and the id of the order's customer.
use goldy_telegram_bot.Prelude.{
  ℕ, Bool, ◌&&◌, not, List, [], ◌∷◌, ◌==◌, if◌then◌else◌, any, all, is_nil,
}
pub mod Hierarchy
use goldy_telegram_bot.UserValues.{UserRole}
use goldy_telegram_bot.User.{User, same_role, is_staff}
use goldy_telegram_bot.Result.{Result, ok, err, authorization}

abbrev pub Permission {ℓ} : Type ℓ → Type ℓ
Permission PC = PC → Bool

module _ {ℓ} {PC : Type ℓ} where
  -- `AnyOf`: none of no permissions is satisfied.
  unfoldable pub any_of : List (Permission PC) → Permission PC
  any_of permissions context = any (λ p. p context) permissions

  -- `AllOf`: no permissions at all are not satisfied.
  unfoldable pub all_of : List (Permission PC) → Permission PC
  all_of permissions context = not (is_nil permissions) && all (λ p. p context) permissions

  -- `AccessService.authorize`
  unfoldable pub authorize : Permission PC → PC → Result (Unit {0})
  authorize permission context = if permission context then ok tt else err authorization

-- `SUBORDINATE_ROLES`
unfoldable pub subordinate_roles : UserRole → List UserRole
subordinate_roles UserRole.admin = UserRole.manager ∷ UserRole.customer ∷ []
subordinate_roles UserRole.manager = UserRole.customer ∷ []
subordinate_roles UserRole.customer = []

pub record UserManagementContext : Type 0 where
  pub subject : User
  pub target : User

pub record RoleManagementContext : Type 0 where
  pub subject : User
  pub target_role : UserRole

pub record StaffContext : Type 0 where
  pub subject : User

pub record OrderAccessContext : Type 0 where
  pub subject : User
  pub order_customer_id : ℕ

abbrev pub is_among : UserRole → List UserRole → Bool
is_among role = any (same_role role)

-- `IsStaff`
unfoldable pub staff_permission : Permission StaffContext
staff_permission c = is_staff c.subject.role

-- `CanManageSelf`: two entities are equal if their ids are.
unfoldable pub can_manage_self : Permission UserManagementContext
can_manage_self c = c.subject.id == c.target.id

-- `CanManageSubordinate`
unfoldable pub can_manage_subordinate : Permission UserManagementContext
unfolding subordinate_roles
can_manage_subordinate c = is_among c.target.role (subordinate_roles c.subject.role)

-- `CanManageRole`
unfoldable pub can_manage_role : Permission RoleManagementContext
unfolding subordinate_roles
can_manage_role c = is_among c.target_role (subordinate_roles c.subject.role)

-- `IsOrderOwner`
unfoldable pub is_order_owner : Permission OrderAccessContext
is_order_owner c = c.subject.id == c.order_customer_id

-- `CanManageOrders`, which asks `IsStaff` about the same person.
unfoldable pub can_manage_orders : Permission OrderAccessContext
unfolding staff_permission
can_manage_orders c = staff_permission (record { subject = c.subject })

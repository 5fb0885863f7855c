-- ===== src/User/Blocking.antt =====
-- Blocking and unblocking.
use goldy_telegram_bot.Time.{Datetime}
use goldy_telegram_bot.UserValues.{UserStatus, BlockReason}
use goldy_telegram_bot.Result.{user_already_blocked, user_is_blocked, ok, err}
use goldy_telegram_bot.Event.{Session}
use goldy_telegram_bot.Prelude.{◌≡◌, some, arith}
use goldy_telegram_bot.User.{User, block, unblock, ensure_active}
use goldy_telegram_bot.User.Changes.{IsValid}

-- Blocking an active, valid person succeeds, keeps them from acting, and is not possible a second
-- time, which keeps the first reason; unblocking then gives the same person up to the moment of the
-- last change, who may act again.
pub block-unblock :
    (s : Session User) (reason other : BlockReason) (t u w : Datetime)
    → IsValid s.entity
    → s.entity.status ≡ UserStatus.active
    → let (r, barred) = block reason t s in
      let (r', again) = unblock w barred in
      (r ≡ ok tt)
      × (barred.entity.block_reason ≡ some reason)
      × ((ensure_active barred).0 ≡ err user_is_blocked)
      × (block other u barred ≡ (err user_already_blocked, barred))
      × (r' ≡ ok tt)
      × (again.entity ≡ record (s.entity) { updated_at = w })
      × ((ensure_active again).0 ≡ ok tt)
unfolding block unblock ensure_active
block-unblock s reason other t u w v h = ground arith

-- ===== src/Outbox/Counts.antt =====
-- Counting rows: what selecting, ordering and marking them does to the number with a property.
use goldy_telegram_bot.Outbox.{is_pending, filter, insert_by_date, order_by_date, mark_processed}
use goldy_telegram_bot.Time.{before, Datetime}
use goldy_telegram_bot.Request.{OutboxMessage}
use goldy_telegram_bot.Prelude.{
  false, not, zero, suc, ◌≤◌, ◌<◌, ◌≡◌, refl, inl, inr, Bool, true, ◌&&◌, ◌||◌, List, [], ◌∷◌,
  arith, ◌==◌, if◌then◌else◌, Bool-cases, any, take, All, ℕ,
}

module _ {A : Type 0} where
  abbrev pub count : (A → Bool) → List A → ℕ
  count p [] = 0
  count p (x ∷ xs) = if p x then suc (count p xs) else count p xs

  pub any-take :
      (p q : A → Bool) (n : ℕ) (xs : List A)
      → count q xs < n
      → 0 < count p xs
      → All (λ x. (p x || q x) ≡ true) xs
      → any p (take n xs) ≡ true
  any-take p q zero xs h k v = ground arith
  any-take p q (suc n) [] h k v = ground arith
  any-take p q (suc n) (x ∷ xs) h k v = elim (Bool-cases (p x)) [
    | inl e ↦ rw e refl
    | inr e ↦ ground (arith, any-take p q n xs)
  ]

  pub All-filter {κ} :
      (P : A → Type κ) (q : A → Bool) (xs : List A)
      → All P xs
      → All (λ x. (q x ≡ true) × P x) (filter q xs)
  unfolding filter
  All-filter P q [] v = tt
  All-filter P q (x ∷ xs) v = elim (Bool-cases (q x)) [
    | inl e ↦ rw e ((e, v.0), All-filter P q xs v.1)
    | inr e ↦ rw e (All-filter P q xs v.1)
  ]

  pub All-take {κ} : (P : A → Type κ) (n : ℕ) (xs : List A) → All P xs → All P (take n xs)
  All-take P zero xs v = tt
  All-take P (suc n) [] v = tt
  All-take P (suc n) (x ∷ xs) v = (v.0, All-take P n xs v.1)

  pub All-weaken {κ} :
      (P Q : A → Type κ) (xs : List A) → ((x : A) → P x → Q x) → All P xs → All Q xs
  All-weaken P Q [] f v = tt
  All-weaken P Q (x ∷ xs) f v = (f x v.0, All-weaken P Q xs f v.1)

  pub All-every {κ} : (P : A → Type κ) (xs : List A) → ((x : A) → P x) → All P xs
  All-every P [] f = tt
  All-every P (x ∷ xs) f = (f x, All-every P xs f)

count-insert_by_date :
    (p : OutboxMessage → Bool) (m : OutboxMessage) (ms : List OutboxMessage)
    → count p (insert_by_date m ms) ≡ count p (m ∷ ms)
unfolding insert_by_date
count-insert_by_date p m [] = refl
count-insert_by_date p m (n ∷ ms) = ground (arith, count-insert_by_date p m ms)

pub count-order_by_date :
    (p : OutboxMessage → Bool) (ms : List OutboxMessage) → count p (order_by_date ms) ≡ count p ms
unfolding order_by_date
count-order_by_date p [] = refl
count-order_by_date p (m ∷ ms) =
    ground (arith, count-order_by_date p ms, count-insert_by_date p m (order_by_date ms))

All-insert_by_date :
    (P : OutboxMessage → Type 0) (m : OutboxMessage) (ms : List OutboxMessage)
    → P m
    → All P ms
    → All P (insert_by_date m ms)
unfolding insert_by_date
All-insert_by_date P m [] h v = (h, tt)
All-insert_by_date P m (n ∷ ms) h v = elim (Bool-cases (before n.created_at m.created_at)) [
  | inl e ↦ rw e (v.0, All-insert_by_date P m ms h v.1)
  | inr e ↦ rw e (h, v)
]

pub All-order_by_date :
    (P : OutboxMessage → Type 0) (ms : List OutboxMessage) → All P ms → All P (order_by_date ms)
unfolding order_by_date
All-order_by_date P [] v = tt
All-order_by_date P (m ∷ ms) v =
    All-insert_by_date P m (order_by_date ms) v.0 (All-order_by_date P ms v.1)

-- The rows to be published, and those among them that the broker accepts or refuses.
abbrev pub waits : (OutboxMessage → Bool) → OutboxMessage → Bool
waits p m = is_pending m && p m

-- Marking takes no row back into the queue.
pub count-mark_processed :
    (p : OutboxMessage → Bool) (now : Datetime) (id : ℕ) (ms : List OutboxMessage)
    → count (waits p) (mark_processed now id ms) ≤ count (waits p) ms
unfolding mark_processed
count-mark_processed p now id [] = omega arith
count-mark_processed p now id (m ∷ ms) = ground (arith, count-mark_processed p now id ms)

-- Marking a row that waits takes it out of the queue.
pub count-mark_processed_less :
    (p : OutboxMessage → Bool) (now : Datetime) (id : ℕ) (ms : List OutboxMessage)
    → any (λ m. waits p m && m.id == id) ms ≡ true
    → count (waits p) (mark_processed now id ms) < count (waits p) ms
unfolding mark_processed
count-mark_processed_less p now id [] h = cc
count-mark_processed_less p now id (m ∷ ms) h =
    ground (arith, count-mark_processed_less p now id ms, count-mark_processed p now id ms)

pub count-filter :
    (p : OutboxMessage → Bool) (ms : List OutboxMessage)
    → count p (filter (λ m. is_pending m && not false) ms) ≡ count (waits p) ms
unfolding filter
count-filter p [] = refl
count-filter p (m ∷ ms) = ground (arith, count-filter p ms)

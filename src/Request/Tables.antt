-- ===== src/Request/Tables.antt =====
-- Lookups in a table, and what saving a row does to them.
use goldy_telegram_bot.Prelude.{
  length, false, inl, inr, Bool-cases, ◌≡◌, refl, ℕ, ◌==◌, Bool, true, Option, none, some, List, [],
  ◌∷◌, ◌++◌, arith, if◌then◌else◌, All,
}
use goldy_telegram_bot.Request.{find_by, save}

abbrev pub replaced {ℓ} : {A : Type ℓ} → A → Option A → Option A
replaced row none = none
replaced row (some old) = some row

module _ {ℓ} {A : Type ℓ} where
  pub find_by-holds :
      (p : A → Bool) (rows : List A) (row : A) → find_by p rows ≡ some row → p row ≡ true
  unfolding find_by
  find_by-holds p [] row h = cc
  find_by-holds p (r ∷ rows) row h = ground (arith, find_by-holds p rows row)

  pub find_by-append :
      (p : A → Bool) (rows more : List A)
      → find_by p rows ≡ none
      → find_by p (rows ++ more) ≡ find_by p more
  unfolding find_by
  find_by-append p [] more h = refl
  find_by-append p (r ∷ rows) more h = ground (arith, find_by-append p rows more)

  pub find_by-append_found :
      (p : A → Bool) (rows more : List A) (row : A)
      → find_by p rows ≡ some row
      → find_by p (rows ++ more) ≡ some row
  unfolding find_by
  find_by-append_found p [] more row h = cc
  find_by-append_found p (r ∷ rows) more row h =
      ground (arith, find_by-append_found p rows more row)

  pub find_by-append_skip :
      (p : A → Bool) (rows : List A) (row : A)
      → p row ≡ false
      → find_by p (rows ++ row ∷ []) ≡ find_by p rows
  unfolding find_by
  find_by-append_skip p [] row h = ground arith
  find_by-append_skip p (r ∷ rows) row h = ground (arith, find_by-append_skip p rows row h)

  -- What every row has, a row that was found has.
  pub find_by-All {κ} :
      (P : A → Type κ) (p : A → Bool) (rows : List A) (row : A)
      → All P rows
      → find_by p rows ≡ some row
      → P row
  unfolding find_by
  find_by-All P p [] row v h = cc
  find_by-All P p (r ∷ rows) row v h = elim (Bool-cases (p r)) [
    | inl e ↦ let same : r ≡ row = ground arith in rw (← same) v.0
    | inr e ↦ find_by-All P p rows row v.1 (ground arith)
  ]

  pub save-All {κ} :
      (P : A → Type κ) (key : A → ℕ) (row : A) (rows : List A)
      → All P rows
      → P row
      → All P (save key row rows)
  unfolding save
  save-All P key row [] v h = tt
  save-All P key row (r ∷ rows) v h = elim (Bool-cases (key r == key row)) [
    | inl e ↦ rw e (h, v.1)
    | inr e ↦ rw e (v.0, save-All P key row rows v.1 h)
  ]

  -- The lookup of a row by its key after a row was saved.
  pub find_by-save :
      (key : A → ℕ) (k : ℕ) (row : A) (rows : List A)
      → find_by (λ r. key r == k) (save key row rows) ≡ (
          if key row == k
          then replaced row (find_by (λ r. key r == k) rows)
          else find_by (λ r. key r == k) rows)
  unfolding find_by save
  find_by-save key k row [] = ground arith
  find_by-save key k row (r ∷ rows) = ground (arith, find_by-save key k row rows)

  -- No two rows have the same key.
  abbrev pub Distinct : (A → ℕ) → List A → Type 0
  Distinct key [] = Unit
  Distinct key (row ∷ rows) = All (λ r. (key r == key row) ≡ false) rows × Distinct key rows

  -- Among rows with different keys a row that some lookup finds is the one that its key finds.
  pub find_by-key :
      (key : A → ℕ) (p : A → Bool) (rows : List A) (row : A)
      → Distinct key rows
      → find_by p rows ≡ some row
      → find_by (λ r. key r == key row) rows ≡ some row
  unfolding find_by
  find_by-key key p [] row d h = cc
  find_by-key key p (r ∷ rows) row d h = elim (Bool-cases (p r)) [
    | inl e ↦ ground arith
    | inr e ↦
        let later : find_by p rows ≡ some row = ground arith in
        let differs : (key row == key r) ≡ false =
          find_by-All (λ s. (key s == key r) ≡ false) p rows row d.0 later in
        ground (arith, find_by-key key p rows row d.1 later)
  ]

  -- A lookup that wants neither a saved row nor what it replaces finds what it found.
  pub find_by-save_other :
      (key : A → ℕ) (p : A → Bool) (row old : A) (rows : List A)
      → find_by (λ r. key r == key row) rows ≡ some old
      → p old ≡ false
      → p row ≡ false
      → find_by p (save key row rows) ≡ find_by p rows
  unfolding find_by save
  find_by-save_other key p row old [] h ho hr = cc
  find_by-save_other key p row old (r ∷ rows) h ho hr =
      ground (arith, find_by-save_other key p row old rows)

  -- A lookup that wants the saved row, and found what it replaces, finds the saved row.
  pub find_by-save_same :
      (key : A → ℕ) (p : A → Bool) (row old : A) (rows : List A)
      → Distinct key rows
      → find_by p rows ≡ some old
      → key row ≡ key old
      → p row ≡ true
      → find_by p (save key row rows) ≡ some row
  unfolding find_by save
  find_by-save_same key p row old [] d h k hr = cc
  find_by-save_same key p row old (r ∷ rows) d h k hr = elim (Bool-cases (p r)) [
    | inl e ↦ ground arith
    | inr e ↦
        let later : find_by p rows ≡ some old = ground arith in
        let differs : (key old == key r) ≡ false =
          find_by-All (λ s. (key s == key r) ≡ false) p rows old d.0 later in
        ground (arith, find_by-save_same key p row old rows d.1 later k hr)
  ]

  All-init {κ} : (P : A → Type κ) (rows more : List A) → All P (rows ++ more) → All P rows
  All-init P [] more h = tt
  All-init P (r ∷ rows) more h = (h.0, All-init P rows more h.1)

  pub Distinct-init :
      (key : A → ℕ) (rows more : List A) → Distinct key (rows ++ more) → Distinct key rows
  Distinct-init key [] more d = tt
  Distinct-init key (r ∷ rows) more d =
      (All-init (λ s. (key s == key r) ≡ false) rows more d.0, Distinct-init key rows more d.1)

  -- A lookup that found nothing finds a saved row that it wants.
  pub find_by-save_new :
      (key : A → ℕ) (p : A → Bool) (row old : A) (rows : List A)
      → find_by p rows ≡ none
      → find_by (λ r. key r == key row) rows ≡ some old
      → p row ≡ true
      → find_by p (save key row rows) ≡ some row
  unfolding find_by save
  find_by-save_new key p row old [] n h hr = cc
  find_by-save_new key p row old (r ∷ rows) n h hr =
      ground (arith, find_by-save_new key p row old rows)

  pub length-save :
      (key : A → ℕ) (row : A) (rows : List A) → length (save key row rows) ≡ length rows
  unfolding save
  length-save key row [] = refl
  length-save key row (r ∷ rows) = ground (arith, length-save key row rows)

  All-save_key :
      (key : A → ℕ) (k : ℕ) (row : A) (rows : List A)
      → All (λ r. (key r == k) ≡ false) rows
      → All (λ r. (key r == k) ≡ false) (save key row rows)
  unfolding save
  All-save_key key k row [] v = tt
  All-save_key key k row (r ∷ rows) v = elim (Bool-cases (key r == key row)) [
    | inl e ↦ rw e (ground arith, v.1)
    | inr e ↦ rw e (v.0, All-save_key key k row rows v.1)
  ]

  -- Saving a row keeps the keys.
  pub save-Distinct :
      (key : A → ℕ) (row : A) (rows : List A) → Distinct key rows → Distinct key (save key row rows)
  unfolding save
  save-Distinct key row [] d = tt
  save-Distinct key row (r ∷ rows) d = elim (Bool-cases (key r == key row)) [
    | inl e ↦ let one : key r ≡ key row = ground arith in rw e (rw (← one) d.0, d.1)
    | inr e ↦ rw e (All-save_key key (key r) row rows d.0, save-Distinct key row rows d.1)
  ]

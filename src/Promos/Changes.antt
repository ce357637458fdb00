-- ===== src/Promos/Changes.antt =====
-- What the statements on promo codes do to the promo code under each identifier.
use soa_hw.Prelude.{
  ℕ, ◌≡◌, refl, Option, none, some, find, delete_where, ◌==◌, if◌then◌else◌, find-key_append,
  find-key_update, find-key_delete, find-any-none, arith,
}
use soa_hw.Domain.Promo.{PromoCode}
use soa_hw.Store.{Env, Db}
use soa_hw.Store.Schema.{varchar}
use soa_hw.Store.Action.{ok}
use soa_hw.Promos.Repository.{
  has_id, overwrite, put_promo, insert_promo, update_promo, delete_promo,
}
use soa_hw.Promos.Valid.{put_promo_rows, change_promo_rows, with_amounts_ok}

-- The promo code under an identifier.
abbrev pub promo_at : {F : Type 0} → Db F → ℕ → Option (PromoCode F)
promo_at db id = find (has_id id) db.promo_codes

-- `d` has this at this identifier, and is `db` at every other.
abbrev pub Sets : {F : Type 0} → Db F → ℕ → Option (PromoCode F) → Db F → Type 0
Sets db id o d = (k : ℕ) → promo_at d k ≡ (if id == k then o else promo_at db k)

module _ {F : Type 0} (env : Env F) where
  -- The row has the terms of a promo code, as the columns round them.
  abbrev pub HasTerms : PromoCode F → PromoCode F → Type 0
  HasTerms p row =
      (env.numeric p.discount_value ≡ some row.discount_value)
      × (env.numeric p.min_order_amount ≡ some row.min_order_amount)
      × (row.max_uses ≡ p.max_uses)
      × (row.valid_until ≡ env.timestamp p.valid_until)
      × (row.active ≡ p.active)

  -- A row that was inserted for a promo code.
  abbrev pub IsNew : PromoCode F → PromoCode F → Type 0
  IsNew p row =
      (row.code ≡ varchar 20 p.code)
      × (row.discount_type ≡ p.discount_type)
      × (row.current_uses ≡ p.current_uses)
      × (row.valid_from ≡ env.timestamp p.valid_from)
      × HasTerms p row

  -- What an update leaves alone.
  abbrev pub IsSameCode : PromoCode F → PromoCode F → Type 0
  IsSameCode old row =
      (row.id ≡ old.id)
      × (row.code ≡ old.code)
      × (row.discount_type ≡ old.discount_type)
      × (row.current_uses ≡ old.current_uses)
      × (row.valid_from ≡ old.valid_from)

  module _ (db : Db F) where
    -- One promo code more, under an identifier that had none.
    abbrev pub Inserts : PromoCode F → Db F → Type 0
    Inserts p d =
        (row : PromoCode F) × IsNew p row × (promo_at db p.id ≡ none) × Sets db p.id (some row) d

    -- New terms for a promo code.
    abbrev pub Changes : PromoCode F → PromoCode F → Db F → Type 0
    Changes old p d =
        (row : PromoCode F) × IsSameCode old row × HasTerms p row × Sets db p.id (some row) d

    put_promo-Sets :
        (row : PromoCode F) (d : Db F)
        → put_promo env row db ≡ ok (tt, d)
        → (promo_at db row.id ≡ none) × Sets db row.id (some row) d
    put_promo-Sets row d h =
        let (fresh, good, rows) = put_promo_rows env db row d h in
        (
          find-any-none (has_id row.id) db.promo_codes fresh,
          λ k. rw rows (find-key_append (λ x. x.id) k db.promo_codes row fresh),
        )

    pub insert_promo-Inserts :
        (p : PromoCode F) (n : ℕ) (d : Db F) → insert_promo env p n db ≡ ok (tt, d) → Inserts p d
    unfolding insert_promo
    insert_promo-Inserts p n d h =
        let (x, y, is_x, is_y, put) =
          with_amounts_ok env db (env.numeric p.discount_value) (env.numeric p.min_order_amount) _
            (tt, d) h in
        let (fresh, sets) = put_promo-Sets _ d put in
        (_, (refl, refl, refl, refl, (is_x, is_y, refl, refl, refl)), fresh, sets)

    pub update_promo-Changes :
        (p old : PromoCode F) (n : ℕ) (d : Db F)
        → promo_at db p.id ≡ some old
        → update_promo env p n db ≡ ok (tt, d)
        → Changes old p d
    unfolding update_promo
    update_promo-Changes p old n d found h =
        let (x, y, is_x, is_y, change) =
          with_amounts_ok env db (env.numeric p.discount_value) (env.numeric p.min_order_amount) _
            (tt, d) h in
        let f : PromoCode F → PromoCode F = overwrite p x y (env.timestamp p.valid_until) in
        let (good, rows) = change_promo_rows env db p.id f n d old found change in
        (
          f old,
          (refl, refl, refl, refl, refl),
          (is_x, is_y, refl, refl, refl),
          λ k.
              rw (rows, find-key_update (λ x. x.id) k p.id f db.promo_codes old (λ x. refl) found)
                refl,
        )

    pub delete_promo-Sets :
        (id n : ℕ) (d : Db F) → delete_promo id n db ≡ ok (tt, d) → Sets db id none d
    unfolding delete_promo
    delete_promo-Sets id n d h k = rw rows (find-key_delete (λ x. x.id) k id db.promo_codes)
      where
        rows : d.promo_codes ≡ delete_where (has_id id) db.promo_codes
        rows = ground arith

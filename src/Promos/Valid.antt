-- ===== src/Promos/Valid.antt =====
-- The constraints of the table of promo codes, through the requests that change it.
use soa_hw.Prelude.{
  ℕ, ◌≡◌, refl, inl, inr, Bool, true, false, ◌==◌, Option, none, some, List, [], ◌∷◌, ◌++◌, find,
  any, update_where, delete_where, find-key_append, find-key_update, find-key_delete, Option-cases,
  if◌then◌else◌, arith,
}
use soa_hw.Domain.Promo.{PromoCode}
use soa_hw.Store.{Env, Db}
use soa_hw.Store.Action.{Result, ok, err, violation}
use soa_hw.Store.Schema.{promo_row}
use soa_hw.Promos.Repository.{
  has_id, put_promo, with_amounts, change_promo, insert_promo, update_promo, delete_promo,
}

module _ {F : Type 0} (env : Env F) where
  -- A promo code that was found satisfies the constraints of its table.
  abbrev pub IsRow : Option (PromoCode F) → Type 0
  IsRow none = Unit
  IsRow (some p) = promo_row env p ≡ true

  -- The promo code under each identifier does.
  abbrev pub IsValid : List (PromoCode F) → Type 0
  IsValid rows = (id : ℕ) → IsRow (find (has_id id) rows)

  IsRow-if :
      (b : Bool) (o o' : Option (PromoCode F)) → IsRow o → IsRow o' → IsRow (if b then o else o')
  IsRow-if true o o' h h' = h
  IsRow-if false o o' h h' = h'

  nothing : {A : Type 0} (r : A × Db F) → ¬ (◌≡◌ {A = Result (A × Db F)} (err violation) (ok r))
  nothing r e = cc

  module _ (db : Db F) where
    pub put_promo_rows :
        (row : PromoCode F) (d : Db F)
        → put_promo env row db ≡ ok (tt, d)
        → (any (λ x. x.id == row.id) db.promo_codes ≡ false)
          × (promo_row env row ≡ true)
          × (d.promo_codes ≡ db.promo_codes ++ row ∷ [])
    unfolding put_promo
    put_promo_rows row d h = (ground arith, ground arith, ground arith)

    put_promo-IsValid :
        (row : PromoCode F) (d : Db F)
        → put_promo env row db ≡ ok (tt, d)
        → IsValid db.promo_codes
        → IsValid d.promo_codes
    put_promo-IsValid row d h valid id =
        let (fresh, good, rows) = put_promo_rows row d h in
        rw (rows, find-key_append (λ x. x.id) id db.promo_codes row fresh)
          (IsRow-if (row.id == id) (some row) _ good (valid id))

    pub change_promo_rows :
        (id : ℕ) (f : PromoCode F → PromoCode F) (n : ℕ) (d : Db F) (old : PromoCode F)
        → find (has_id id) db.promo_codes ≡ some old
        → change_promo env (has_id id) f n db ≡ ok (tt, d)
        → (promo_row env (f old) ≡ true)
          × (d.promo_codes ≡ update_where (has_id id) f db.promo_codes)
    unfolding change_promo
    change_promo_rows id f n d old e h = (ground arith, ground arith)

    change_promo_same :
        (id : ℕ) (f : PromoCode F → PromoCode F) (n : ℕ) (d : Db F)
        → find (has_id id) db.promo_codes ≡ none
        → change_promo env (has_id id) f n db ≡ ok (tt, d)
        → d ≡ db
    unfolding change_promo
    change_promo_same id f n d e h = ground arith

    pub change_promo-IsValid :
        (id : ℕ) (f : PromoCode F → PromoCode F) (n : ℕ) (d : Db F)
        → ((x : PromoCode F) → (f x).id ≡ x.id)
        → change_promo env (has_id id) f n db ≡ ok (tt, d)
        → IsValid db.promo_codes
        → IsValid d.promo_codes
    change_promo-IsValid id f n d same h valid k =
        elim (Option-cases (find (has_id id) db.promo_codes)) [
          | inl e ↦ rw (change_promo_same id f n d e h) (valid k)
          | inr (old, e) ↦
              let (good, rows) = change_promo_rows id f n d old e h in
              rw (rows, find-key_update (λ x. x.id) k id f db.promo_codes old same e)
                (IsRow-if (id == k) (some (f old)) _ good (valid k))
        ]

    pub delete_promo-IsValid :
        (id n : ℕ) (d : Db F)
        → delete_promo id n db ≡ ok (tt, d)
        → IsValid db.promo_codes
        → IsValid d.promo_codes
    unfolding delete_promo
    delete_promo-IsValid id n d h valid k =
        rw (rows, find-key_delete (λ x. x.id) k id db.promo_codes)
          (IsRow-if (id == k) none _ tt (valid k))
      where
        rows : d.promo_codes ≡ delete_where (has_id id) db.promo_codes
        rows = ground arith

    pub with_amounts_ok :
        {A : Type 0} (a b : Option F) (f : F → F → Result (A × Db F)) (r : A × Db F)
        → with_amounts env a b f ≡ ok r
        → (x : F) × (y : F) × (a ≡ some x) × (b ≡ some y) × (f x y ≡ ok r)
    unfolding with_amounts
    with_amounts_ok (some x) (some y) f r h = (x, y, refl, refl, h)
    with_amounts_ok none b f r h = absurd (nothing r h)
    with_amounts_ok (some x) none f r h = absurd (nothing r h)

    pub insert_promo-IsValid :
        (p : PromoCode F) (n : ℕ) (d : Db F)
        → insert_promo env p n db ≡ ok (tt, d)
        → IsValid db.promo_codes
        → IsValid d.promo_codes
    unfolding insert_promo
    insert_promo-IsValid p n d h valid =
        let (x, y, is_x, is_y, put) =
          with_amounts_ok (env.numeric p.discount_value) (env.numeric p.min_order_amount) _ (tt, d)
            h in
        put_promo-IsValid _ d put valid

    pub update_promo-IsValid :
        (p : PromoCode F) (n : ℕ) (d : Db F)
        → update_promo env p n db ≡ ok (tt, d)
        → IsValid db.promo_codes
        → IsValid d.promo_codes
    unfolding update_promo
    update_promo-IsValid p n d h valid =
        let (x, y, is_x, is_y, change) =
          with_amounts_ok (env.numeric p.discount_value) (env.numeric p.min_order_amount) _ (tt, d)
            h in
        change_promo-IsValid p.id _ n d (λ x. refl) change valid

-- ===== src/Products/Order.antt =====
-- ORDER BY created_at DESC, where no two rows have the same time.
use soa_hw.Prelude.{
  ℕ, ◌<◌, ◌≤◌, ◌≡◌, refl, sym, ap, subst, ◌∙◌, Bool, List, [], ◌∷◌, All, none, some, find, ◌==◌,
  Bool-cases, inl, inr, arith,
}
use soa_hw.Domain.{Product}

module _ {F : Type 0} where
  abbrev pub was_created : ℕ → Product F → Bool
  was_created time p = p.created_at == time

  abbrev pub IsOlder : ℕ → Product F → Type 0
  IsOlder time p = p.created_at < time

  -- Each row is older than the row before it.
  abbrev pub Descending : List (Product F) → Type 0
  Descending [] = Unit
  Descending (p ∷ ps) = All (IsOlder p.created_at) ps × Descending ps

  -- `ps` is the rows, the newest first; each has a time of its own.
  pub record IsOrderBy (rows ps : List (Product F)) : Type 0 where
    pub descending : Descending ps
    pub same_rows : (time : ℕ) → find (was_created time) ps ≡ find (was_created time) rows

  older-none :
      (time bound : ℕ) (ps : List (Product F))
      → bound ≤ time
      → All (IsOlder bound) ps
      → find (was_created time) ps ≡ none
  older-none time bound [] h all = refl
  older-none time bound (p ∷ ps) h (older, all) = ground (arith, older-none time bound ps h all)

  find-first :
      (p : Product F) (ps : List (Product F)) → find (was_created p.created_at) (p ∷ ps) ≡ some p
  find-first p ps = ground arith

  find-newer :
      (time : ℕ) (p : Product F) (ps : List (Product F))
      → p.created_at < time
      → All (IsOlder p.created_at) ps
      → find (was_created time) (p ∷ ps) ≡ none
  find-newer time p ps h all = ground (arith, older-none time p.created_at ps (omega arith) all)

  -- The first rows of two listings of the same rows.
  no_newer :
      (p q : Product F) (ps qs : List (Product F))
      → All (IsOlder p.created_at) ps
      → find (was_created q.created_at) (p ∷ ps) ≡ find (was_created q.created_at) (q ∷ qs)
      → ¬ (p.created_at < q.created_at)
  no_newer p q ps qs all same newer =
      absurd (cc (find-newer q.created_at p ps newer all, find-first q qs))

  tail-same :
      (time : ℕ) (p : Product F) (ps qs : List (Product F))
      → All (IsOlder p.created_at) ps
      → All (IsOlder p.created_at) qs
      → find (was_created time) (p ∷ ps) ≡ find (was_created time) (p ∷ qs)
      → find (was_created time) ps ≡ find (was_created time) qs
  tail-same time p ps qs ps_older qs_older same = elim (Bool-cases (p.created_at == time)) [
    | inl e ↦
        older-none time p.created_at ps (ground arith) ps_older
        ∙ sym (older-none time p.created_at qs (ground arith) qs_older)
    | inr e ↦ rw e at same
  ]

  first-same :
      (p q : Product F) (ps qs : List (Product F))
      → All (IsOlder p.created_at) ps
      → All (IsOlder q.created_at) qs
      → ((time : ℕ) → find (was_created time) (p ∷ ps) ≡ find (was_created time) (q ∷ qs))
      → p ≡ q
  first-same p q ps qs ps_older qs_older same =
      cc (same p.created_at, find-first p ps, find-first q qs, times)
    where
      times : p.created_at ≡ q.created_at
      times = omega (
        arith,
        no_newer p q ps qs ps_older (same q.created_at),
        no_newer q p qs ps qs_older (sym (same p.created_at)),
      )

  -- There is one order.
  pub one_order :
      (ps qs : List (Product F))
      → Descending ps
      → Descending qs
      → ((time : ℕ) → find (was_created time) ps ≡ find (was_created time) qs)
      → ps ≡ qs
  one_order [] [] d e same = refl
  one_order [] (q ∷ qs) d e same = absurd (cc (same q.created_at, find-first q qs))
  one_order (p ∷ ps) [] d e same = absurd (cc (same p.created_at, find-first p ps))
  one_order (p ∷ ps) (q ∷ qs) d e same =
      let first = first-same p q ps qs d.0 e.0 same in
      cc (
        first,
        one_order ps qs d.1 e.1 λ time.
            tail-same time p ps qs d.0 (subst (λ x. All (IsOlder x.created_at) qs) (sym first) e.0)
              (same time ∙ ap (λ x. find (was_created time) (x ∷ qs)) (sym first)),
      )

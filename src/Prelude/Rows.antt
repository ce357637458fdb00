-- ===== src/Prelude/Rows.antt =====
-- What holds of every row of a table, and how many rows pass a test, through updates and deletions.
use Prim.Native.Nat.{suc, ◌≤◌}
use mathlib.Core.Path.{◌≡◌, refl}
use mathlib.Core.Bool.{Bool, true, false}
use mathlib.Core.Option.{some}
use mathlib.Core.List.{List, [], ◌∷◌, ◌++◌}
use mathlib.Core.Logic.{inl, inr}
use native.Mathlib.Omega.{arith}
use soa_hw.Prelude.Tests.{Bool-cases}
use soa_hw.Prelude.Lists.{
  All, any, count, find, update_where, delete_where, count-update_where_none,
}

module _ {ℓ} {A : Type ℓ} where
  pub All-update_where {κ} :
      (P Q : A → Type κ) (test : A → Bool) (f : A → A) (xs : List A)
      → ((x : A) → test x ≡ true → P x → Q (f x))
      → ((x : A) → test x ≡ false → P x → Q x)
      → All P xs
      → All Q (update_where test f xs)
  All-update_where P Q test f [] hit miss h = tt
  All-update_where P Q test f (x ∷ xs) hit miss h =
      let rest : All Q (update_where test f xs) = All-update_where P Q test f xs hit miss h.1 in
      elim (Bool-cases (test x)) [
        | inl e ↦ rw e (hit x e h.0, rest)
        | inr e ↦ rw e (miss x e h.0, rest)
      ]

  pub All-delete_where {κ} :
      (P Q : A → Type κ) (test : A → Bool) (xs : List A)
      → ((x : A) → test x ≡ false → P x → Q x)
      → All P xs
      → All Q (delete_where test xs)
  All-delete_where P Q test [] miss h = tt
  All-delete_where P Q test (x ∷ xs) miss h =
      let rest : All Q (delete_where test xs) = All-delete_where P Q test xs miss h.1 in
      elim (Bool-cases (test x)) [ inl e ↦ rw e rest | inr e ↦ rw e (miss x e h.0, rest) ]

  pub All-weaken {κ} :
      (P Q : A → Type κ) (xs : List A) → ((x : A) → P x → Q x) → All P xs → All Q xs
  All-weaken P Q [] f h = tt
  All-weaken P Q (x ∷ xs) f h = (f x h.0, All-weaken P Q xs f h.1)

  pub find-All {κ} :
      (P : A → Type κ) (test : A → Bool) (xs : List A) (x : A)
      → find test xs ≡ some x
      → All P xs
      → P x
  find-All P test [] x e h = absurd (cc e)
  find-All P test (y ∷ xs) x e h = elim (Bool-cases (test y)) [
    | inl t ↦ let same : y ≡ x = ground arith in rw (← same) h.0
    | inr t ↦ find-All P test xs x (rw t at e) h.1
  ]

  pub find-any :
      (test q : A → Bool) (xs : List A) (x : A)
      → find test xs ≡ some x
      → q x ≡ true
      → any q xs ≡ true
  find-any test q [] x e h = cc
  find-any test q (y ∷ xs) x e h = ground (arith, find-any test q xs x)

  pub any-append : (q : A → Bool) (xs ys : List A) → any q xs ≡ true → any q (xs ++ ys) ≡ true
  any-append q [] ys h = cc
  any-append q (x ∷ xs) ys h = ground (arith, any-append q xs ys)

  pub any-append_last :
      (q : A → Bool) (xs : List A) (y : A) → q y ≡ true → any q (xs ++ y ∷ []) ≡ true
  any-append_last q [] y h = rw h
  any-append_last q (x ∷ xs) y h = ground (arith, any-append_last q xs y h)

  pub any-update_where :
      (q test : A → Bool) (f : A → A) (xs : List A)
      → ((x : A) → q (f x) ≡ q x)
      → any q (update_where test f xs) ≡ any q xs
  any-update_where q test f [] same = refl
  any-update_where q test f (x ∷ xs) same =
      ground (arith, same x, any-update_where q test f xs same)

  pub any-delete_where :
      (q test : A → Bool) (xs : List A)
      → ((x : A) → q x ≡ true → test x ≡ false)
      → any q xs ≡ true
      → any q (delete_where test xs) ≡ true
  any-delete_where q test [] apart h = h
  any-delete_where q test (x ∷ xs) apart h =
      ground (arith, apart x, any-delete_where q test xs apart)

  -- No row passes the test.
  pub count-All-false : (q : A → Bool) (xs : List A) → All (λ x. q x ≡ false) xs → count q xs ≡ 0
  count-All-false q [] h = refl
  count-All-false q (x ∷ xs) h = ground (arith, count-All-false q xs)

  -- An update of one row, which passed the test and no longer does.
  pub count-update_where_less :
      (p q : A → Bool) (f : A → A) (xs : List A) (o : A)
      → find q xs ≡ some o
      → count q xs ≤ 1
      → p o ≡ true
      → p (f o) ≡ false
      → count p xs ≡ suc (count p (update_where q f xs))
  count-update_where_less p q f [] o h n e e' = cc
  count-update_where_less p q f (x ∷ xs) o h n e e' =
      ground (arith, count-update_where_none p q f xs, count-update_where_less p q f xs o)

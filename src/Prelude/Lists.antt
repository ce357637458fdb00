-- ===== src/Prelude/Lists.antt =====
-- Tables as lists of rows: the selections, updates and deletions that the queries are made of.
use Prim.Native.Nat.{ℕ, zero, suc, ◌+◌, ◌≤◌}
use mathlib.Core.Path.{◌≡◌, refl, ap, subst}
use mathlib.Core.Logic.{inl, inr}
use mathlib.Core.Bool.{Bool, true, false}
use mathlib.Core.Option.{Option, none, some}
use mathlib.Core.List.{List, [], ◌∷◌, ◌++◌}
use native.Mathlib.Omega.{arith}
use soa_hw.Prelude.Tests.{if◌then◌else◌, ◌==◌, ==_iff, Bool-cases}

suc_add : (a b : ℕ) → suc a + b ≡ suc (a + b)
suc_add a b = omega arith

module _ {ℓ} {A : Type ℓ} where
  abbrev pub length : List A → ℕ
  length [] = 0
  length (x ∷ xs) = suc (length xs)

  -- The first row that passes the test.
  abbrev pub find : (A → Bool) → List A → Option A
  find p [] = none
  find p (x ∷ xs) = if p x then some x else find p xs

  abbrev pub any : (A → Bool) → List A → Bool
  any p [] = false
  any p (x ∷ xs) = if p x then true else any p xs

  -- The number of rows that pass the test.
  abbrev pub count : (A → Bool) → List A → ℕ
  count p [] = 0
  count p (x ∷ xs) = let rest = count p xs in if p x then suc rest else rest

  -- The rows that pass the test.
  abbrev pub select : (A → Bool) → List A → List A
  select p [] = []
  select p (x ∷ xs) = let rest = select p xs in if p x then x ∷ rest else rest

  abbrev pub delete_where : (A → Bool) → List A → List A
  delete_where p [] = []
  delete_where p (x ∷ xs) = let rest = delete_where p xs in if p x then rest else x ∷ rest

  abbrev pub update_where : (A → Bool) → (A → A) → List A → List A
  update_where p f [] = []
  update_where p f (x ∷ xs) = (if p x then f x else x) ∷ update_where p f xs

  abbrev pub take : ℕ → List A → List A
  take n [] = []
  take n (x ∷ xs) = elim n [ zero ↦ [] | suc m ↦ x ∷ take m xs ]

  abbrev pub drop : ℕ → List A → List A
  drop n [] = []
  drop n (x ∷ xs) = elim n [ zero ↦ x ∷ xs | suc m ↦ drop m xs ]

  -- A property of every row, which the tactics read as a tuple.
  abbrev pub All {κ} : (A → Type κ) → List A → Type κ
  All P [] = Unit
  All P (x ∷ xs) = P x × All P xs

  pub find-append_none :
      (p : A → Bool) (xs : List A) (y : A)
      → any p xs ≡ false
      → find p (xs ++ y ∷ []) ≡ (if p y then some y else none)
  find-append_none p [] y h = refl
  find-append_none p (x ∷ xs) y h = ground (arith, find-append_none p xs y)

  pub find-append_other :
      (p : A → Bool) (xs : List A) (y : A) → p y ≡ false → find p (xs ++ y ∷ []) ≡ find p xs
  find-append_other p [] y h = ground arith
  find-append_other p (x ∷ xs) y h = ground (arith, find-append_other p xs y h)

  pub All-append_one {κ} :
      (P : A → Type κ) (xs : List A) (y : A) → All P xs → P y → All P (xs ++ y ∷ [])
  All-append_one P [] y h p = (p, tt)
  All-append_one P (x ∷ xs) y h p = (h.0, All-append_one P xs y h.1 p)

  pub find_sound : (p : A → Bool) (xs : List A) (x : A) → find p xs ≡ some x → p x ≡ true
  find_sound p [] x h = cc
  find_sound p (y ∷ xs) x h = ground (arith, find_sound p xs x)

  pub count-append_one :
      (p : A → Bool) (xs : List A) (y : A)
      → count p (xs ++ y ∷ []) ≡ count p xs + (if p y then 1 else 0)
  count-append_one p [] y = ground arith
  count-append_one p (x ∷ xs) y = ground (arith, count-append_one p xs y)

  -- A row that no other row can match leaves at most one match.
  pub count-append_le :
      (p : A → Bool) (xs : List A) (y : A)
      → count p xs ≤ 1
      → (p y ≡ true → count p xs ≡ 0)
      → count p (xs ++ y ∷ []) ≤ 1
  count-append_le p xs y h n = rw (count-append_one p xs y) (ground (arith, n))

  pub count-any : (p : A → Bool) (xs : List A) → any p xs ≡ false → count p xs ≡ 0
  count-any p [] h = refl
  count-any p (x ∷ xs) h = ground (arith, count-any p xs)

  pub count-find : (p : A → Bool) (xs : List A) → find p xs ≡ none → count p xs ≡ 0
  count-find p [] h = refl
  count-find p (x ∷ xs) h = ground (arith, count-find p xs)

  -- An update that the test does not see.
  pub count-update_where_same :
      (p q : A → Bool) (f : A → A) (xs : List A)
      → ((x : A) → p (f x) ≡ p x)
      → count p (update_where q f xs) ≡ count p xs
  count-update_where_same p q f [] h = refl
  count-update_where_same p q f (x ∷ xs) h = ground (arith, count-update_where_same p q f xs h, h x)

  -- An update after which the test fails.
  pub count-update_where_le :
      (p q : A → Bool) (f : A → A) (xs : List A)
      → ((x : A) → p (f x) ≡ false)
      → count p (update_where q f xs) ≤ count p xs
  count-update_where_le p q f [] h = omega arith
  count-update_where_le p q f (x ∷ xs) h = ground (arith, count-update_where_le p q f xs h, h x)

  pub count-update_where_none :
      (p q : A → Bool) (f : A → A) (xs : List A)
      → count q xs ≡ 0
      → count p (update_where q f xs) ≡ count p xs
  count-update_where_none p q f [] h = refl
  count-update_where_none p q f (x ∷ xs) h = ground (arith, count-update_where_none p q f xs)

  pub find-none-update_where :
      (p : A → Bool) (f : A → A) (xs : List A) → find p xs ≡ none → update_where p f xs ≡ xs
  find-none-update_where p f [] h = refl
  find-none-update_where p f (x ∷ xs) h = ground (arith, find-none-update_where p f xs)

  -- An update of one row, which the test does not see.
  pub count-update_where_one :
      (p q : A → Bool) (f : A → A) (xs : List A) (o : A)
      → find q xs ≡ some o
      → count q xs ≤ 1
      → p (f o) ≡ p o
      → count p (update_where q f xs) ≡ count p xs
  count-update_where_one p q f [] o h n e = refl
  count-update_where_one p q f (x ∷ xs) o h n e =
      ground (arith, count-update_where_none p q f xs, count-update_where_one p q f xs o)

  pub take-add : (a b : ℕ) (xs : List A) → take (a + b) xs ≡ take a xs ++ take b (drop a xs)
  take-add a b [] = refl
  take-add zero b (x ∷ xs) = ap (λ n. take n (x ∷ xs)) (omega arith)
  take-add (suc a) b (x ∷ xs) = rw (suc_add a b) (ap (λ ys. x ∷ ys) (take-add a b xs))

  pub take-zero : (xs : List A) → take 0 xs ≡ []
  take-zero [] = refl
  take-zero (x ∷ xs) = refl

  -- Lookups by a key, after an insertion and after an update that keeps the keys.
  pub find-key_append :
      (key : A → ℕ) (k : ℕ) (xs : List A) (y : A)
      → any (λ x. key x == key y) xs ≡ false
      → find (λ x. key x == k) (xs ++ y ∷ [])
        ≡ (if key y == k then some y else find (λ x. key x == k) xs)
  find-key_append key k [] y h = refl
  find-key_append key k (x ∷ xs) y h = ground (arith, find-key_append key k xs y)

  pub find-any-none : (p : A → Bool) (xs : List A) → any p xs ≡ false → find p xs ≡ none
  find-any-none p [] h = refl
  find-any-none p (x ∷ xs) h = ground (arith, find-any-none p xs)

  find-key_update_other :
      (key : A → ℕ) (k id : ℕ) (f : A → A) (xs : List A)
      → ((x : A) → key (f x) ≡ key x)
      → (id == k) ≡ false
      → find (λ x. key x == k) (update_where (λ x. key x == id) f xs) ≡ find (λ x. key x == k) xs
  find-key_update_other key k id f [] same h = refl
  find-key_update_other key k id f (x ∷ xs) same h =
      ground (arith, same x, find-key_update_other key k id f xs same h)

  find-key_update_self :
      (key : A → ℕ) (id : ℕ) (f : A → A) (xs : List A) (o : A)
      → ((x : A) → key (f x) ≡ key x)
      → find (λ x. key x == id) xs ≡ some o
      → find (λ x. key x == id) (update_where (λ x. key x == id) f xs) ≡ some (f o)
  find-key_update_self key id f [] o same h = cc
  find-key_update_self key id f (x ∷ xs) o same h =
      ground (arith, same x, find-key_update_self key id f xs o same)

  pub find-key_update :
      (key : A → ℕ) (k id : ℕ) (f : A → A) (xs : List A) (o : A)
      → ((x : A) → key (f x) ≡ key x)
      → find (λ x. key x == id) xs ≡ some o
      → find (λ x. key x == k) (update_where (λ x. key x == id) f xs)
        ≡ (if id == k then some (f o) else find (λ x. key x == k) xs)
  find-key_update key k id f xs o same h = elim (Bool-cases (id == k)) [
    | inl e ↦ rw e (
        subst (λ n. find (λ x. key x == n) (update_where (λ x. key x == id) f xs) ≡ some (f o))
          ((==_iff id k).0 e) (find-key_update_self key id f xs o same h))
    | inr e ↦ rw e (find-key_update_other key k id f xs same e)
  ]

  pub find-key_delete :
      (key : A → ℕ) (k id : ℕ) (xs : List A)
      → find (λ x. key x == k) (delete_where (λ x. key x == id) xs)
        ≡ (if id == k then none else find (λ x. key x == k) xs)
  find-key_delete key k id [] = ground arith
  find-key_delete key k id (x ∷ xs) = ground (arith, find-key_delete key k id xs)

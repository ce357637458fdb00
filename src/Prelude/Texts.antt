-- ===== src/Prelude/Texts.antt =====
-- Texts as lists of characters.
use Prim.Native.Nat.{◌-◌, ◌+◌, ◌≤◌, compare as compare_ℕ}
use Prim.Native.String.{[], ◌∷◌, ◌++◌, len, fits}
use Prim.Native.String
use Prim.Native.Char.{Char, len_utf8}
use text.Mathlib.TextEquality.{eq_iff}
use text.Mathlib.TextLemmas.{cons-append, nil-append}
use text.Mathlib.TextPositions.{slice-zero-zero}
use soa_hw.Prelude.{
  ℕ, ◌≡◌, refl, subst, ◌∙◌, ap, inl, inr, false, String, str_eq, Bool-cases, arith,
}

pub nonempty : (c : Char) (s : String) → str_eq (c ∷ s) "" ≡ false
nonempty c s = elim (Bool-cases (str_eq (c ∷ s) "")) [
  | inl e ↦ absurd (different ((eq_iff (c ∷ s) "").0 e))
  | inr e ↦ e
]
  where
    different : ¬ (c ∷ s ≡ "")
    different e = cc

pub one-append : (d : Char) (s : String) → (d ∷ []) ++ s ≡ d ∷ s
one-append d s = cons-append d [] s ∙ ap (λ t. d ∷ t) (nil-append s)

pub nonempty_at : (s : String) (d : Char) (t : String) → str_eq (s ++ (d ∷ t)) "" ≡ false
nonempty_at [] d t = rw (nil-append (d ∷ t)) (nonempty d t)
nonempty_at (c ∷ s) d t = rw (cons-append c s (d ∷ t)) (nonempty c (s ++ (d ∷ t)))

slice_cons :
    (c : Char) (s : String) (n : ℕ)
    → String.slice (c ∷ s) 0 n
      ≡ fits (compare_ℕ (len_utf8 c) n) c (String.slice s 0 (n - len_utf8 c))
slice_cons c s n = String.slice.cons-zero c s n

len_cons : (c : Char) (s : String) → len (c ∷ s) ≡ len_utf8 c + len s
len_cons c s = String.len.cons c s

-- What stands before a position does not depend on what follows it.
pub slice-append :
    (s t : String) (n : ℕ) → n ≤ len s → String.slice (s ++ t) 0 n ≡ String.slice s 0 n
slice-append [] t n h =
    subst (λ m. String.slice ([] ++ t) 0 m ≡ String.slice [] 0 m) zero_is
      (rw (slice-zero-zero ([] ++ t), slice-zero-zero []) refl)
  where
    zero_is : 0 ≡ n
    zero_is = omega (arith, h)
slice-append (c ∷ s) t n h =
    rw (cons-append c s t, slice_cons c (s ++ t) n, slice_cons c s n)
      (ap (fits (compare_ℕ (len_utf8 c) n) c)
        (slice-append s t (n - len_utf8 c) (omega (arith, within))))
  where
    within : n ≤ len_utf8 c + len s
    within = subst (λ m. n ≤ m) (len_cons c s) h

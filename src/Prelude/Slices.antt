-- ===== src/Prelude/Slices.antt =====
-- Laws of slices of a list of bytes, and of copies into it.
use Prim.Native.Nat.{ℕ, ◌+◌, ◌≤◌}
use mathlib.Core.Path.{◌≡◌, refl, ap, ◌∙◌}
use mathlib.Core.List.{List, ◌++◌}
use native.Mathlib.Omega.{arith}
use hvnetpp.Prelude.Lists.{
  length, take, drop, slice, overwrite, length-append, length-take, length-drop, take_all,
  take-append, take-append_past, drop-append, drop-append_past, drop-drop, drop-take,
}

module _ {ℓ} {A : Type ℓ} where
  pub length-slice : (i n : ℕ) (xs : List A) → i + n ≤ length xs → length (slice i n xs) ≡ n
  length-slice i n xs h = omega (arith, length-take n (drop i xs), length-drop i xs)

  pub length-overwrite :
      (i : ℕ) (ys xs : List A) → i + length ys ≤ length xs → length (overwrite i ys xs) ≡ length xs
  length-overwrite i ys xs h = omega (
    arith,
    length-append (take i xs) (ys ++ drop (i + length ys) xs),
    length-append ys (drop (i + length ys) xs),
    length-take i xs,
    length-drop (i + length ys) xs,
  )

  -- A slice within the first part of a concatenation.
  pub slice-append :
      (i n : ℕ) (xs ys : List A) → i + n ≤ length xs → slice i n (xs ++ ys) ≡ slice i n xs
  slice-append i n xs ys h =
      ap (take n) (drop-append i xs ys (omega arith))
      ∙ take-append n (drop i xs) ys (omega (arith, length-drop i xs))

  pub drop-slice : (k i n : ℕ) (xs : List A) → drop k (slice i (k + n) xs) ≡ slice (i + k) n xs
  drop-slice k i n xs = drop-take k n (drop i xs) ∙ ap (take n) (drop-drop k i xs)

  take-append_exact : (n : ℕ) (xs ys : List A) → n ≡ length xs → take n (xs ++ ys) ≡ xs
  take-append_exact n xs ys h = take-append n xs ys (omega arith) ∙ take_all n xs (omega arith)

  pub take-append-append :
      (n m : ℕ) (xs ys zs : List A)
      → n ≡ length xs
      → m ≡ length ys
      → take (n + m) (xs ++ (ys ++ zs)) ≡ xs ++ ys
  take-append-append n m xs ys zs e f =
      take-append_past (n + m) m xs (ys ++ zs) (omega arith)
      ∙ ap (◌++◌ xs) (take-append_exact m ys zs f)

  -- Bytes written at the end of a slice extend it.
  pub slice-overwrite_after :
      (r n w : ℕ) (ys xs : List A)
      → w ≡ r + n
      → w ≤ length xs
      → slice r (n + length ys) (overwrite w ys xs) ≡ slice r n xs ++ ys
  slice-overwrite_after r n w ys xs e h =
      let rest = ys ++ drop (w + length ys) xs in
      ap (take (n + length ys)) (
        drop-append r (take w xs) rest (omega (arith, length-take w xs))
        ∙ ap (λ t. t ++ rest) (ap (λ k. drop r (take k xs)) e ∙ drop-take r n xs))
      ∙ take-append-append n (length ys) (slice r n xs) ys (drop (w + length ys) xs)
          (omega (arith, length-slice r n xs)) refl

  -- Bytes written just before a slice stand in front of it.
  pub slice-overwrite_before :
      (i r n : ℕ) (ys xs : List A)
      → r ≡ i + length ys
      → r ≤ length xs
      → slice i (length ys + n) (overwrite i ys xs) ≡ ys ++ slice r n xs
  slice-overwrite_before i r n ys xs e h =
      ap (take (length ys + n)) (
        drop-append_past i 0 (take i xs) (ys ++ drop (i + length ys) xs)
          (omega (arith, length-take i xs)))
      ∙ take-append_past (length ys + n) n ys (drop (i + length ys) xs) (omega arith)
      ∙ ap (λ k. ys ++ take n (drop k xs)) {x = i + length ys} (omega arith)

  pub slice-overwrite_at :
      (i n : ℕ) (ys xs : List A)
      → n ≡ length ys
      → i ≤ length xs
      → slice i n (overwrite i ys xs) ≡ ys
  slice-overwrite_at i n ys xs e h =
      ap (take n) (
        drop-append_past i 0 (take i xs) (ys ++ drop (i + length ys) xs)
          (omega (arith, length-take i xs)))
      ∙ take-append_exact n ys (drop (i + length ys) xs) e

  pub take-append-drop_lem : (n : ℕ) (xs : List A) → n ≤ length xs → length (take n xs) ≡ n
  take-append-drop_lem n xs h = omega (arith, length-take n xs)

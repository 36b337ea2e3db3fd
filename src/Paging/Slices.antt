-- ===== src/Paging/Slices.antt =====
-- Pages cut out of a list.
use neural_vyuha_prime.Common.{
  ℕ, zero, suc, ◌+◌, ◌*◌, ◌-◌, ◌≤◌, ◌≡◌, refl, ap, List, [], ◌∷◌, ◌++◌, length, take, drop,
  take_all, arith, ◌∙◌, sym,
}
use neural_vyuha_prime.Paging.{slice}
use native.Mathlib.Nat.{zero-add, suc-add}

module _ {ℓ} {A : Type ℓ} where
  -- What the pages 1 to k hold, one after the other.
  abbrev pub first_pages : (ℕ → List A) → ℕ → List A
  first_pages page zero = []
  first_pages page (suc k) = first_pages page k ++ page (suc k)

  take-add : (a b : ℕ) (xs : List A) → take a xs ++ take b (drop a xs) ≡ take (a + b) xs
  take-add zero b xs = rw zero-add
  take-add (suc a) zero [] = rw suc-add
  take-add (suc a) (suc b) [] = rw suc-add
  take-add (suc a) b (x ∷ xs) = rw suc-add (ap (x ∷◌) (take-add a b xs))

  first_pages-take :
      (size k : ℕ) (xs : List A)
      → first_pages (λ n. slice (n * size - size) (n * size) xs) k ≡ take (k * size) xs
  first_pages-take size zero xs = let none_yet : zero * size ≡ 0 = omega arith in rw none_yet
  first_pages-take size (suc k) xs =
      rw (first_pages-take size k xs, start, width)
        (take-add (k * size) size xs ∙ sym (ap (λ n. take n xs) total))
    where
      start : suc k * size - size ≡ k * size
      start = omega arith

      width : suc k * size - k * size ≡ size
      width = omega arith

      total : suc k * size ≡ k * size + size
      total = omega arith

  -- Enough pages hold the whole list, each element once and in order.
  pub first_pages_all :
      (size k : ℕ) (xs : List A)
      → length xs ≤ k * size
      → first_pages (λ n. slice (n * size - size) (n * size) xs) k ≡ xs
  first_pages_all size k xs h = first_pages-take size k xs ∙ take_all (k * size) xs h

  pub first_pages-ext :
      (f g : ℕ → List A) (k : ℕ)
      → ((n : ℕ) → f (suc n) ≡ g (suc n))
      → first_pages f k ≡ first_pages g k
  first_pages-ext f g zero h = refl
  first_pages-ext f g (suc k) h = rw (first_pages-ext f g k h, h k)

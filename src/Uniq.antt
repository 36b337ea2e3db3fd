-- ===== src/Uniq.antt =====
-- `_.uniq` of underscore, with the test whether it leaves one value, as the menus of the lists use
-- them.
use neural_vyuha_prime.Common.{
  String, ◌==◌, eq_iff, eq_refl, Bool, true, false, ◌&&◌, ◌||◌, List, [], ◌∷◌, ◌++◌, map, ◌≡◌, refl,
  sym, ◌∙◌, arith, all, and-false, or-false, any, Bool-cases, inl, inr, if◌then◌else◌,
}
use mathlib.Core.Bool.{beq}

-- `_.uniq`: the first of each value, in order.
module _ {A : Type 0} (eq : A → A → Bool) where
  abbrev pub elem : A → List A → Bool
  elem a xs = any (λ x. eq x a) xs

  abbrev pub uniq_from : List A → List A → List A
  uniq_from seen [] = seen
  uniq_from seen (x ∷ xs) = uniq_from (if elem x seen then seen else seen ++ x ∷ []) xs

  abbrev pub uniq : List A → List A
  uniq xs = uniq_from [] xs

  -- `temp.length === 1 && temp[0] === a`
  abbrev pub is_only : A → List A → Bool
  is_only a (x ∷ []) = eq x a
  is_only a _ = false

abbrev pub is_nonempty : {A : Type 0} → List A → Bool
is_nonempty [] = false
is_nonempty (x ∷ xs) = true

module _ {A : Type 0} (eq : A → A → Bool) (eq_refl' : (a : A) → eq a a ≡ true)
    (eq_euclid : (a b c : A) → eq a b ≡ true → eq a c ≡ eq b c)
    (eq_comm : (a b : A) → eq a b ≡ eq b a) where
  is_only-many :
      (a s r : A) (seen xs : List A) → is_only eq a (uniq_from eq (s ∷ r ∷ seen) xs) ≡ false
  is_only-many a s r seen [] = refl
  is_only-many a s r seen (x ∷ xs) = elim (Bool-cases (elem eq x (s ∷ r ∷ seen))) [
    | inl old ↦ rw old (is_only-many a s r seen xs)
    | inr new ↦ rw new (is_only-many a s r (seen ++ x ∷ []) xs)
  ]

  is_only-one :
      (a s : A) (xs : List A)
      → is_only eq a (uniq_from eq (s ∷ []) xs) ≡ (eq s a && all (λ x. eq s x) xs)
  is_only-one a s [] = ground arith
  is_only-one a s (x ∷ xs) = elim (Bool-cases (eq s x)) [
    | inl same ↦ rw same (is_only-one a s xs)
    | inr other ↦ rw other (is_only-many a s x [] xs ∙ sym (and-false (eq s a)))
  ]

  all-shift : (a s : A) (xs : List A) → eq s a ≡ true → all (λ x. eq s x) xs ≡ all (λ x. eq x a) xs
  all-shift a s [] h = refl
  all-shift a s (x ∷ xs) h = ground (arith, all-shift a s xs h, eq_euclid s a x h, eq_comm a x)

  pub is_only-uniq :
      (a : A) (xs : List A) → is_only eq a (uniq eq xs) ≡ (is_nonempty xs && all (λ x. eq x a) xs)
  is_only-uniq a [] = refl
  is_only-uniq a (x ∷ xs) = ground (arith, is_only-one a x xs, all-shift a x xs)

  elem-elem :
      (a x : A) (seen : List A) → elem eq x seen ≡ true → eq x a ≡ true → elem eq a seen ≡ true
  elem-elem a x [] h e = cc
  elem-elem a x (y ∷ ys) h e = ground (arith, eq_euclid y x a, elem-elem a x ys)

  elem-append : (a : A) (xs ys : List A) → elem eq a (xs ++ ys) ≡ (elem eq a xs || elem eq a ys)
  elem-append a [] ys = refl
  elem-append a (x ∷ xs) ys = ground (arith, elem-append a xs ys)

  pub elem-uniq_from :
      (a : A) (seen xs : List A)
      → elem eq a (uniq_from eq seen xs) ≡ (elem eq a seen || elem eq a xs)
  elem-uniq_from a seen [] = sym (or-false _)
  elem-uniq_from a seen (x ∷ xs) = elim (Bool-cases (elem eq x seen)) [
    | inl old ↦ rw old (ground (arith, elem-uniq_from a seen xs, elem-elem a x seen old))
    | inr new ↦
        rw new (ground (arith, elem-uniq_from a (seen ++ x ∷ []) xs, elem-append a seen (x ∷ [])))
  ]

string_comm : (s t : String) → (s == t) ≡ (t == s)
string_comm s t = ground (arith, eq_iff s t, eq_iff t s)

string_refl : (s : String) → (s == s) ≡ true
string_refl s = eq_refl s

string_euclid : (s t u : String) → (s == t) ≡ true → (s == u) ≡ (t == u)
string_euclid s t u h = rw ((eq_iff s t).0 h) refl

-- `_.uniq` keeps the texts of a list.
pub elem-uniq : (t : String) (ts : List String) → elem ◌==◌ t (uniq ◌==◌ ts) ≡ elem ◌==◌ t ts
elem-uniq t ts = elem-uniq_from ◌==◌ string_refl string_euclid string_comm t [] ts

beq_refl : (a : Bool) → beq a a ≡ true
beq_refl a = ground arith

beq_euclid : (a b c : Bool) → beq a b ≡ true → beq a c ≡ beq b c
beq_euclid a b c h = ground arith

beq_comm : (a b : Bool) → beq a b ≡ beq b a
beq_comm a b = ground arith

all-map :
    {A B : Type 0} (f : A → B) (p : B → Bool) (xs : List A)
    → all p (map f xs) ≡ all (λ x. p (f x)) xs
all-map f p [] = refl
all-map f p (x ∷ xs) = rw (all-map f p xs)

nonempty-map : {A B : Type 0} (f : A → B) (xs : List A) → is_nonempty (map f xs) ≡ is_nonempty xs
nonempty-map f [] = refl
nonempty-map f (x ∷ xs) = refl

pub any-map :
    {A B : Type 0} (f : A → B) (p : B → Bool) (xs : List A)
    → any p (map f xs) ≡ any (λ x. p (f x)) xs
any-map f p [] = refl
any-map f p (x ∷ xs) = rw (any-map f p xs)

module _ {A B : Type 0} (eq : B → B → Bool) (eq_refl' : (a : B) → eq a a ≡ true)
    (eq_euclid : (a b c : B) → eq a b ≡ true → eq a c ≡ eq b c)
    (eq_comm : (a b : B) → eq a b ≡ eq b a) where
  -- One value is left exactly if there are elements and all have it.
  pub is_only-uniq-map :
      (f : A → B) (b : B) (xs : List A)
      → is_only eq b (uniq eq (map f xs)) ≡ (is_nonempty xs && all (λ x. eq (f x) b) xs)
  is_only-uniq-map f b xs =
      is_only-uniq eq eq_refl' eq_euclid eq_comm b (map f xs)
      ∙ rw (all-map f (λ x. eq x b) xs, nonempty-map f xs)

pub is_only-uniq-beq :
    {A : Type 0} (f : A → Bool) (b : Bool) (xs : List A)
    → is_only beq b (uniq beq (map f xs)) ≡ (is_nonempty xs && all (λ x. beq (f x) b) xs)
is_only-uniq-beq f b xs = is_only-uniq-map beq beq_refl beq_euclid beq_comm f b xs

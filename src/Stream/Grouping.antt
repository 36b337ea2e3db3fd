-- ===== src/Stream/Grouping.antt =====
-- What the groups of StreamSrv.js hold.
use neural_vyuha_prime.Common.{
  String, Bool, true, false, List, [], ◌∷◌, ◌++◌, filter, ◌==◌, ◌≡◌, refl, ap, sym, ◌∙◌, arith, eqb,
  eq_iff, eq_refl, if◌then◌else◌, Bool-cases, inl, inr, append_assoc, append-nil,
}
use Prim.Native.Char.{Char, code}
use Prim.Native.String
use Prim.Native.String.append
use neural_vyuha_prime.Stream.{
  Message, Groups, put_message, group_by, pair_key, before_bar, behind_bar, split_pair,
}

abbrev pub entries : String → Groups → Groups
entries k g = filter (λ p. p.0 == k) g

-- One group with these messages, and none where there are none.
abbrev pub one_group : String → List Message → Groups
one_group k [] = []
one_group k (m ∷ ms) = (k, m ∷ ms) ∷ []

entries-put_other :
    (k j : String) (m : Message) (g : Groups)
    → (j == k) ≡ false
    → entries k (put_message j m g) ≡ entries k g
unfolding put_message
entries-put_other k j m [] h = rw h
entries-put_other k j m ((i, ms) ∷ g) h = ground (arith, entries-put_other k j m g h, eq_iff i j)

one_group-snoc :
    (k : String) (xs : List Message) (m : Message)
    → one_group k (xs ++ m ∷ []) ≡ (k, xs ++ m ∷ []) ∷ []
one_group-snoc k [] m = refl
one_group-snoc k (x ∷ xs) m = refl

entries-put_same :
    (k : String) (m : Message) (g : Groups) (xs : List Message)
    → entries k g ≡ one_group k xs
    → entries k (put_message k m g) ≡ (k, xs ++ m ∷ []) ∷ []
unfolding put_message
entries-put_same k m [] [] h = rw (eq_refl k)
entries-put_same k m [] (x ∷ xs) h = cc
entries-put_same k m ((i, ms) ∷ g) xs h = elim (Bool-cases (i == k)) [
  | inl e ↦ rw (e, e) (go xs (rw e at h))
  | inr n ↦ rw (n, n) (entries-put_same k m g xs (rw n at h))
]
  where
    go :
        (xs : List Message)
        → (i, ms) ∷ entries k g ≡ one_group k xs
        → (i, ms ++ m ∷ []) ∷ entries k g ≡ (k, xs ++ m ∷ []) ∷ []
    go [] p = cc
    go (x ∷ xs) p = cc

entries-group_by :
    (key : Message → String) (k : String) (ms : List Message) (g : Groups) (xs : List Message)
    → entries k g ≡ one_group k xs
    → entries k (group_by (λ m. key m ∷ []) ms g) ≡ one_group k (xs ++ filter (λ m. key m == k) ms)
unfolding group_by
entries-group_by key k [] g xs h = rw append-nil h
entries-group_by key k (m ∷ ms) g xs h = elim (Bool-cases (key m == k)) [
  | inl e ↦
      let put : entries k (put_message (key m) m g) ≡ one_group k (xs ++ m ∷ []) =
        rw ((eq_iff (key m) k).0 e) (entries-put_same k m g xs h ∙ sym (one_group-snoc k xs m)) in
      rw e (
        entries-group_by key k ms (put_message (key m) m g) (xs ++ m ∷ []) put
        ∙ ap (one_group k) (append_assoc xs (m ∷ []) _))
  | inr n ↦ rw n (
      entries-group_by key k ms (put_message (key m) m g) xs
        (entries-put_other k (key m) m g n ∙ h))
]

-- Grouped by a key that each message has: for every key there is one group, with exactly the
-- messages of that key, each once and in their order, and no group where there is no such message.
pub group_by_lem :
    (key : Message → String) (k : String) (ms : List Message)
    → entries k (group_by (λ m. key m ∷ []) ms []) ≡ one_group k (filter (λ m. key m == k) ms)
group_by_lem key k ms = entries-group_by key k ms [] [] refl

abbrev pub has_bar : String → Bool
has_bar String.[] = false
has_bar (String.◌∷◌ c s) = let rest = has_bar s in if eqb (code c) b'|' then true else rest

before_bar_all : (s : String) → has_bar s ≡ false → before_bar s ≡ s
before_bar_all String.[] h = refl
before_bar_all (String.◌∷◌ c s) h = ground (arith, before_bar_all s)

pair-nil : (t : String) → pair_key "" t ≡ String.◌∷◌ "|" t
pair-nil t =
    append.nil (String.◌++◌ "|" t)
    ∙ append.cons "|" "" t
    ∙ ap (λ s. String.◌∷◌ "|" s) (append.nil t)

pair-cons : (c : Char) (r t : String) → pair_key (String.◌∷◌ c r) t ≡ String.◌∷◌ c (pair_key r t)
pair-cons c r t = append.cons c r (String.◌++◌ "|" t)

bars-pair :
    (r t : String)
    → has_bar r ≡ false
    → (before_bar (pair_key r t) ≡ r) × (behind_bar (pair_key r t) ≡ t)
bars-pair String.[] t h = rw (pair-nil t) (refl, refl)
bars-pair (String.◌∷◌ c r) t h = rw (pair-cons c r t) (ground (arith, bars-pair r t))

-- The key of a root and a type is taken apart again into the two, if neither has a bar.
pub split_pair-pair_key :
    (root type : String)
    → has_bar root ≡ false
    → has_bar type ≡ false
    → split_pair (pair_key root type) ≡ (root, type)
unfolding split_pair
split_pair-pair_key root type h h' =
    let (first, second) = bars-pair root type h in rw (first, second, before_bar_all type h')

-- ===== src/Prelude/Lists.antt =====
-- Lists under Boolean tests, dictionaries as association lists, and predicates by recursion.
use Prim.Native.Nat.{ℕ, suc, Ordering}
use Prim.Native.String
use Prim.Native.String.{String}
use mathlib.Core.Path.{◌≡◌, refl}
use native.Mathlib.Omega.{arith}
use mathlib.Core.Bool.{Bool, true, false, ◌&&◌, ◌||◌}
use mathlib.Core.Option.{Option, none, some}
use mathlib.Core.List.{List, [], ◌∷◌, ◌++◌}
use text.Mathlib.Text.{◌==◌}
use hub_kubernetes_agent.Prelude.Tests.{if◌then◌else◌, ◌<>◌}

module _ {ℓ} {A : Type ℓ} where
  abbrev pub length : List A → ℕ
  length [] = 0
  length (x ∷ xs) = suc (length xs)

  abbrev pub is_empty : List A → Bool
  is_empty [] = true
  is_empty (x ∷ xs) = false

  abbrev pub any : (A → Bool) → List A → Bool
  any p [] = false
  any p (x ∷ xs) = p x || any p xs

  abbrev pub all : (A → Bool) → List A → Bool
  all p [] = true
  all p (x ∷ xs) = p x && all p xs

  abbrev pub filter : (A → Bool) → List A → List A
  filter p [] = []
  filter p (x ∷ xs) = let rest = filter p xs in if p x then x ∷ rest else rest

  abbrev pub All {κ} : (A → Type κ) → List A → Type κ
  All P [] = Unit
  All P (x ∷ xs) = P x × All P xs

  pub All-append {κ} : (P : A → Type κ) (xs ys : List A) → All P xs → All P ys → All P (xs ++ ys)
  All-append P [] ys h k = k
  All-append P (x ∷ xs) ys (p, h) k = (p, All-append P xs ys h k)

-- `slice.contains(&text)`, `iter().any(|x| x == text)`
abbrev pub contains : List String → String → Bool
contains xs t = any (λ x. x == t) xs

-- `vec.join(separator)`
abbrev pub join : String → List String → String
join sep [] = ""
join sep (x ∷ []) = x
join sep (x ∷ y ∷ xs) = x <> sep <> join sep (y ∷ xs)

-- `vec.sort()` on texts: by bytes, smallest first.
insert_sorted : String → List String → List String
insert_sorted t [] = t ∷ []
insert_sorted t (x ∷ xs) =
    let rest = insert_sorted t xs in
    elim (String.compare x t) [ Ordering.gt ↦ t ∷ x ∷ xs | _ ↦ x ∷ rest ]

unfoldable pub sort : List String → List String
unfolding insert_sorted
sort [] = []
sort (x ∷ xs) = insert_sorted x (sort xs)

contains-insert_sorted :
    (t : String) (xs : List String) (n : String)
    → contains (insert_sorted t xs) n ≡ ((t == n) || contains xs n)
unfolding insert_sorted
contains-insert_sorted t [] n = refl
contains-insert_sorted t (x ∷ xs) n =
    elim (String.compare x t)
      as (λ o.
        contains (elim o [ Ordering.gt ↦ t ∷ x ∷ xs | _ ↦ x ∷ insert_sorted t xs ]) n
        ≡ ((t == n) || ((x == n) || contains xs n))) [
          | Ordering.lt ↦ ground (arith, contains-insert_sorted t xs n)
          | Ordering.eq ↦ ground (arith, contains-insert_sorted t xs n)
          | Ordering.gt ↦ refl
        ]

pub contains-sort : (xs : List String) (n : String) → contains (sort xs) n ≡ contains xs n
unfolding sort
contains-sort [] n = refl
contains-sort (x ∷ xs) n = ground (arith, contains-insert_sorted x (sort xs) n, contains-sort xs n)

module _ {ℓ} {V : Type ℓ} where
  -- A map as an association list: the first entry of a key is its value.
  abbrev pub lookup : String → List (String × V) → Option V
  lookup k [] = none
  lookup k ((j, v) ∷ m) = if j == k then some v else lookup k m

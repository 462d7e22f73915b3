-- ===== src/Base/Maps.antt =====
-- A `std::unordered_map` from numbers, as the list of its entries in one order that it allows: a
-- new key goes to the end. And the occurrences of a number in a vector.
use Prim.Native.Nat.{ℕ, suc, ◌+◌}
use mathlib.Core.Path.{◌≡◌, refl, sym, ap, subst, ◌∙◌}
use mathlib.Core.Logic.{inl, inr, ∥∥₁_elim}
use native.Mathlib.Nat.{ℕ_set}
use mathlib.Core.Bool.{Bool, true, false}
use mathlib.Core.Option.{Option, none, some}
use mathlib.Core.List.{List, [], ◌∷◌, ◌++◌}
use mathlib.Core.List.{Perm, Permᴰ}
use native.Mathlib.Omega.{arith}
use christians_steam_framewo.Base.Tests.{◌==◌, if◌then◌else◌, leb, Bool-cases}

abbrev pub Map {ℓ} : Type ℓ → Type ℓ
Map A = List (ℕ × A)

-- The entry of a key, which `none` says is missing.
unfoldable pub find_key {ℓ} : {A : Type ℓ} → ℕ → Map A → Option A
find_key key [] = none
find_key key ((k, a) ∷ entries) =
    let rest = find_key key entries in if k == key then some a else rest

-- insert_or_assign
unfoldable pub set_key {ℓ} : {A : Type ℓ} → ℕ → A → Map A → Map A
set_key key a [] = (key, a) ∷ []
set_key key a ((k, b) ∷ entries) =
    let rest = set_key key a entries in if k == key then (k, a) ∷ entries else (k, b) ∷ rest

-- erase
unfoldable pub erase_key {ℓ} : {A : Type ℓ} → ℕ → Map A → Map A
erase_key key [] = []
erase_key key ((k, a) ∷ entries) =
    let rest = erase_key key entries in if k == key then rest else (k, a) ∷ rest

-- No key has two entries.
abbrev pub DistinctKeys {ℓ} : {A : Type ℓ} → Map A → Type ℓ
DistinctKeys [] = Unit
DistinctKeys ((k, a) ∷ entries) = (find_key k entries ≡ none) × DistinctKeys entries

-- The values of the entries, in order.
unfoldable pub values {ℓ} : {A : Type ℓ} → Map A → List A
values [] = []
values ((k, a) ∷ entries) = a ∷ values entries

-- std::find
unfoldable pub contains : ℕ → List ℕ → Bool
contains x [] = false
contains x (y ∷ ys) = if y == x then true else contains x ys

pub find_key-set_key {ℓ} :
    {A : Type ℓ} (key k : ℕ) (a : A) (m : Map A)
    → find_key key (set_key k a m) ≡ (if k == key then some a else find_key key m)
unfolding find_key set_key
find_key-set_key key k a [] = refl
find_key-set_key key k a ((j, b) ∷ m) = elim (Bool-cases (j == k)) [
  | inl e ↦ elim (Bool-cases (j == key)) [
    | inl f ↦ let h : (k == key) ≡ true = ground arith in rw (e, f, h) refl
    | inr f ↦ let h : (k == key) ≡ false = ground arith in rw (e, f, h) refl
  ]
  | inr e ↦ elim (Bool-cases (j == key)) [
    | inl f ↦ let h : (k == key) ≡ false = ground arith in rw (e, f, h) refl
    | inr f ↦ rw (e, f) (find_key-set_key key k a m)
  ]
]

pub find_key-erase_key {ℓ} :
    {A : Type ℓ} (key k : ℕ) (m : Map A)
    → find_key key (erase_key k m) ≡ (if k == key then none else find_key key m)
unfolding find_key erase_key
find_key-erase_key key k [] = elim (Bool-cases (k == key)) [ inl e ↦ rw e refl | inr e ↦ rw e refl ]
find_key-erase_key key k ((j, b) ∷ m) = elim (Bool-cases (j == k)) [
  | inl e ↦ elim (Bool-cases (j == key)) [
    | inl f ↦
        let h : (k == key) ≡ true = ground arith in
        rw (e, h) (find_key-erase_key key k m ∙ rw h refl)
    | inr f ↦
        let h : (k == key) ≡ false = ground arith in
        rw (e, f, h) (find_key-erase_key key k m ∙ rw h refl)
  ]
  | inr e ↦ elim (Bool-cases (j == key)) [
    | inl f ↦ let h : (k == key) ≡ false = ground arith in rw (e, f, h) refl
    | inr f ↦ rw (e, f) (find_key-erase_key key k m)
  ]
]

-- How often a number occurs.
unfoldable pub occurs : ℕ → List ℕ → ℕ
occurs x [] = 0
occurs x (y ∷ ys) = let n = occurs x ys in if y == x then suc n else n

pub occurs-append : (x : ℕ) (xs ys : List ℕ) → occurs x (xs ++ ys) ≡ occurs x xs + occurs x ys
unfolding occurs
occurs-append x [] ys = omega arith
occurs-append x (y ∷ xs) ys = let step = occurs-append x xs ys in ground arith

pub occurs-contains : (x : ℕ) (xs : List ℕ) → leb 1 (occurs x xs) ≡ contains x xs
unfolding occurs contains
occurs-contains x [] = refl
occurs-contains x (y ∷ xs) = elim (Bool-cases (y == x)) [
  | inl e ↦ rw e (ground arith)
  | inr e ↦ rw e (occurs-contains x xs)
]

pub occurs-Permᴰ : (x : ℕ) {xs ys : List ℕ} → Permᴰ xs ys → occurs x xs ≡ occurs x ys
unfolding occurs
occurs-Permᴰ x Permᴰ.nil = refl
occurs-Permᴰ x (Permᴰ.cons {a} {b} {l₁} {l₂} e d) =
    subst (λ c. occurs x (a ∷ l₁) ≡ occurs x (c ∷ l₂)) e
      (ap (λ n. if a == x then suc n else n) (occurs-Permᴰ x d))
occurs-Permᴰ x (Permᴰ.swap {a} {b} {a' = c} {b' = d} {l} e e') =
    subst (λ d. occurs x (a ∷ b ∷ l) ≡ occurs x (c ∷ d ∷ l)) e
      (subst (λ c. occurs x (a ∷ b ∷ l) ≡ occurs x (c ∷ a ∷ l)) e' (ground arith))
occurs-Permᴰ x (Permᴰ.trans p q) = occurs-Permᴰ x p ∙ occurs-Permᴰ x q

pub occurs-Perm : (x : ℕ) {xs ys : List ℕ} → Perm xs ys → occurs x xs ≡ occurs x ys
occurs-Perm x {xs} {ys} p = ∥∥₁_elim p (ℕ_set (occurs x xs) (occurs x ys)) (occurs-Permᴰ x)

pub contains-Permᴰ : (x : ℕ) {xs ys : List ℕ} → Permᴰ xs ys → contains x xs ≡ contains x ys
contains-Permᴰ x {xs} {ys} p =
    sym (occurs-contains x xs) ∙ ap (leb 1) (occurs-Permᴰ x p) ∙ occurs-contains x ys

-- ===== src/CookieJar/Store.antt =====
-- The jar as a map: cookies stand under their name, path and domain, the domain's case aside.
use mathlib.Core.Bool.{true≢false}
use mathlib.Core.List.{cons-ne-nil, head-eq_of_cons-eq, tail-eq_of_cons-eq}
use christians_steam_framewo.Base.{
  true, false, List, [], ◌∷◌, map, Option, none, some, if◌then◌else◌, length, Bytes, bytes_eq,
  bytes_eq_iff, ◌≡◌, ◌≢◌, ◌↔◌, ◌⊎◌, refl, sym, ap, ◌∙◌, Bool-cases, inl, inr, arith, List-cases,
}
use christians_steam_framewo.StringCompare.{compare_equal_iff, lower}
use christians_steam_framewo.CookieJar.{Cookie, match, store, store_at}

-- What a cookie is found by.
abbrev key : Cookie → Bytes × Bytes × Bytes
key c = (c.name, c.path, map lower c.domain)

match_iff : (a b : Cookie) → (match a b ≡ true) ↔ (key a ≡ key b)
unfolding match
match_iff a b = (
  λ h. ground (
    arith,
    h,
    bytes_eq_iff a.name b.name,
    bytes_eq_iff a.path b.path,
    compare_equal_iff a.domain b.domain,
  ),
  λ h. ground (
    arith,
    ap (λ k. k.0) h,
    ap (λ k. k.1) h,
    ap (λ k. k.2) h,
    bytes_eq_iff a.name b.name,
    bytes_eq_iff a.path b.path,
    compare_equal_iff a.domain b.domain,
  ),
)

-- The value stored under the key of `k`.
unfoldable pub look_up : Cookie → List Cookie → Option Bytes
unfolding match
look_up k [] = none
look_up k (c ∷ cs) = let rest = look_up k cs in if match c k then some c.value else rest

match_same : (a b c : Cookie) → key a ≡ key b → match c a ≡ match c b
match_same a b c e = ground (arith, match_iff c a, match_iff c b, e)

-- The clauses of `store`, by what the first cookie of the jar is.
store_other :
    (cookie c : Cookie) (cs : List Cookie)
    → match c cookie ≡ false
    → store cookie (c ∷ cs) ≡ (c ∷ (store cookie cs).0, (store cookie cs).1)
unfolding store
store_other cookie c cs e = rw e

store_at-cases :
    (value : Bytes) (cookie c : Cookie) (cs : List Cookie)
    → ((value ≡ []) × (store_at value cookie c cs ≡ (cs, true)))
      ⊎ ((value ≢ [])
          × (((c.value ≡ value) × (store_at value cookie c cs ≡ (c ∷ cs, false)))
              ⊎ ((c.value ≢ value) × (store_at value cookie c cs ≡ (cookie ∷ cs, true)))))
unfolding store_at
store_at-cases [] cookie c cs = inl (refl, refl)
store_at-cases (v ∷ vs) cookie c cs = elim (Bool-cases (bytes_eq c.value (v ∷ vs))) [
  | inl q ↦ inr (cons-ne-nil v vs, inl ((bytes_eq_iff c.value (v ∷ vs)).0 q, rw q refl))
  | inr q ↦ inr (
    cons-ne-nil v vs,
    inr (λ h. true≢false (sym ((bytes_eq_iff c.value (v ∷ vs)).1 h) ∙ q), rw q refl),
  )
]

-- What becomes of the first cookie of a jar when it matches.
store-match :
    (cookie c : Cookie) (cs : List Cookie)
    → match c cookie ≡ true
    → ((cookie.value ≡ []) × (store cookie (c ∷ cs) ≡ (cs, true)))
      ⊎ ((cookie.value ≢ [])
          × (((c.value ≡ cookie.value) × (store cookie (c ∷ cs) ≡ (c ∷ cs, false)))
              ⊎ ((c.value ≢ cookie.value) × (store cookie (c ∷ cs) ≡ (cookie ∷ cs, true)))))
unfolding store
store-match cookie c cs e = rw e (store_at-cases cookie.value cookie c cs)

-- `store` says that nothing was updated exactly when it leaves the jar as it was.
pub store-updated_iff :
    (cookie : Cookie) (jar : List Cookie)
    → ((store cookie jar).1 ≡ false) ↔ ((store cookie jar).0 ≡ jar)
unfolding store
store-updated_iff cookie [] = (λ h. absurd (true≢false h), λ h. absurd (cons-ne-nil _ _ h))
store-updated_iff cookie (c ∷ cs) = elim (Bool-cases (match c cookie)) [
  | inr e ↦
      let (to, from) = store-updated_iff cookie cs in
      rw (store_other cookie c cs e) (λ h. ap (◌∷◌ c) (to h), λ h. from (tail-eq_of_cons-eq h))
  | inl e ↦ elim (store-match cookie c cs e) [
    | inl (n, q) ↦ rw q (λ h. absurd (true≢false h), λ h. absurd (omega (arith, ap length h)))
    | inr (n, inl (same, q)) ↦ rw q (λ _. refl, λ _. refl)
    | inr (n, inr (differs, q)) ↦ rw q (
      λ h. absurd (true≢false h),
      λ h. absurd (differs (sym (ap (λ c. c.value) (head-eq_of_cons-eq h)))),
    )
  ]
]

-- No two cookies of the jar match.
unfoldable pub Absent : Cookie → List Cookie → Type 0
unfolding look_up
Absent k cs = look_up k cs ≡ none

unfoldable pub Distinct : List Cookie → Type 0
unfolding Absent
Distinct [] = Unit
Distinct (c ∷ cs) = Absent c cs × Distinct cs

-- What a look-up finds after a store.
unfoldable pub stored : Cookie → Option Bytes → Option Bytes
stored cookie none = some cookie.value
stored cookie (some v) = elim cookie.value [ [] ↦ none | x ∷ xs ↦ some (x ∷ xs) ]

look_up-same : (a b : Cookie) (cs : List Cookie) → key a ≡ key b → look_up a cs ≡ look_up b cs
unfolding look_up
look_up-same a b [] e = refl
look_up-same a b (c ∷ cs) e =
    rw (match_same a b c e)
      (ap (λ rest. if match c b then some c.value else rest) (look_up-same a b cs e))

stored_full :
    (cookie : Cookie) (v : Bytes) → cookie.value ≢ [] → stored cookie (some v) ≡ some cookie.value
unfolding stored
stored_full cookie v h = elim (List-cases cookie.value) [
  | inl n ↦ absurd (h n)
  | inr (x, xs, n) ↦ rw n refl
]

match_self : (c : Cookie) → match c c ≡ true
match_self c = (match_iff c c).1 refl

look_up_hit :
    (k c : Cookie) (cs : List Cookie) → match c k ≡ true → look_up k (c ∷ cs) ≡ some c.value
unfolding look_up
look_up_hit k c cs e = rw e refl

look_up_miss :
    (k c : Cookie) (cs : List Cookie) → match c k ≡ false → look_up k (c ∷ cs) ≡ look_up k cs
unfolding look_up
look_up_miss k c cs e = rw e refl

-- A store changes nothing under other keys.
look_up-store_other :
    (cookie k : Cookie) (jar : List Cookie)
    → match cookie k ≡ false
    → look_up k (store cookie jar).0 ≡ look_up k jar
unfolding store
look_up-store_other cookie k [] h = look_up_miss k cookie [] h
look_up-store_other cookie k (c ∷ cs) h = elim (Bool-cases (match c cookie)) [
  | inr e ↦ rw (store_other cookie c cs e) (elim (Bool-cases (match c k)) [
    | inl m ↦ look_up_hit k c _ m ∙ sym (look_up_hit k c cs m)
    | inr m ↦ look_up_miss k c _ m ∙ look_up-store_other cookie k cs h ∙ sym (look_up_miss k c cs m)
  ])
  | inl e ↦
      let m : match c k ≡ false =
        ground (arith, h, match_iff c k, match_iff cookie k, (match_iff c cookie).0 e) in
      elim (store-match cookie c cs e) [
        | inl (n, q) ↦ rw q (sym (look_up_miss k c cs m))
        | inr (n, inl (same, q)) ↦ rw q refl
        | inr (n, inr (differs, q)) ↦
            rw q (look_up_miss k cookie cs h ∙ sym (look_up_miss k c cs m))
      ]
]

-- Under its own key, it leaves what `stored` says, in a jar whose cookies are distinct.
look_up-store_self :
    (cookie : Cookie) (jar : List Cookie)
    → Distinct jar
    → look_up cookie (store cookie jar).0 ≡ stored cookie (look_up cookie jar)
unfolding store stored Distinct Absent
look_up-store_self cookie [] d = look_up_hit cookie cookie [] (match_self cookie)
look_up-store_self cookie (c ∷ cs) (absent, d) = elim (Bool-cases (match c cookie)) [
  | inr e ↦
      rw (store_other cookie c cs e, look_up_miss cookie c _ e, look_up_miss cookie c cs e)
        (look_up-store_self cookie cs d)
  | inl e ↦ elim (store-match cookie c cs e) [
    | inl (n, q) ↦
        rw (q, look_up_hit cookie c cs e, n)
          (sym (look_up-same c cookie cs ((match_iff c cookie).0 e)) ∙ absent)
    | inr (n, inl (same, q)) ↦ rw q (
        look_up_hit cookie c cs e
        ∙ ap some same
        ∙ sym (ap (stored cookie) (look_up_hit cookie c cs e) ∙ stored_full cookie c.value n))
    | inr (n, inr (differs, q)) ↦ rw q (
        look_up_hit cookie cookie cs (match_self cookie)
        ∙ sym (ap (stored cookie) (look_up_hit cookie c cs e) ∙ stored_full cookie c.value n))
  ]
]

pub store-Distinct :
    (cookie : Cookie) (jar : List Cookie) → Distinct jar → Distinct (store cookie jar).0
unfolding store Distinct Absent look_up
store-Distinct cookie [] d = (refl, tt)
store-Distinct cookie (c ∷ cs) (absent, d) = elim (Bool-cases (match c cookie)) [
  | inr e ↦
      let m : match cookie c ≡ false = ground (arith, e, match_iff c cookie, match_iff cookie c) in
      rw (store_other cookie c cs e)
        (look_up-store_other cookie c cs m ∙ absent, store-Distinct cookie cs d)
  | inl e ↦ elim (store-match cookie c cs e) [
    | inl (n, q) ↦ rw q d
    | inr (n, inl (same, q)) ↦ rw q (absent, d)
    | inr (n, inr (differs, q)) ↦
        rw q (sym (look_up-same c cookie cs ((match_iff c cookie).0 e)) ∙ absent, d)
  ]
]

-- In a jar of distinct cookies, storing a cookie leaves distinct cookies. A look-up by its key then
-- finds its value, or nothing if the value is empty and a cookie had that key; a look-up by another
-- key finds what it found before.
pub look_up-store :
    (cookie k : Cookie) (jar : List Cookie)
    → Distinct jar
    → Distinct (store cookie jar).0
      × (look_up k (store cookie jar).0
          ≡ (if match cookie k then stored cookie (look_up k jar) else look_up k jar))
look_up-store cookie k jar d = (
  store-Distinct cookie jar d,
  elim (Bool-cases (match cookie k)) [
    | inl e ↦
        let same : key k ≡ key cookie = sym ((match_iff cookie k).0 e) in
        rw e (
          look_up-same k cookie (store cookie jar).0 same
          ∙ look_up-store_self cookie jar d
          ∙ ap (stored cookie) (sym (look_up-same k cookie jar same)))
    | inr e ↦ rw e (look_up-store_other cookie k jar e)
  ],
)

-- ===== src/PackageData/Links.antt =====
-- What unlinking and linking a package does to the apps.
use christians_steam_framewo.Base.{
  ℕ, ◌+◌, ◌≤◌, Bool, true, false, ◌&&◌, ◌||◌, List, [], ◌∷◌, ◌++◌, none, some, ok, if◌then◌else◌,
  ◌==◌, Map, find_key, set_key, find_key-set_key, contains, occurs, occurs-append, occurs-contains,
  occurs-Perm, length, ◌≡◌, refl, ap, subst, ◌∙◌, ==_iff, Bool-cases, Option-cases, inl, inr, arith,
}
use christians_steam_framewo.Vector.{erase}
use christians_steam_framewo.Vector.Erase.{reject, erase-Erases}
use christians_steam_framewo.PackageData.{packages_of, unlink, link}

-- How often a package stands under an app.
abbrev pub links : ℕ → ℕ → Map (List ℕ) → ℕ
links package_id app_id apps = occurs package_id (packages_of app_id apps)

-- No app is listed twice.
abbrev pub Single : List ℕ → Type 0
Single xs = (x : ℕ) → occurs x xs ≤ 1

packages_of-set_key :
    (a b : ℕ) (items : List ℕ) (apps : Map (List ℕ))
    → packages_of a (set_key b items apps) ≡ (if b == a then items else packages_of a apps)
unfolding packages_of
packages_of-set_key a b items apps = elim (Bool-cases (b == a)) [
  | inl e ↦ rw (packages_of, find_key-set_key, e) refl
  | inr e ↦ rw (packages_of, find_key-set_key, e) refl
]

abbrev is_package : ℕ → ℕ → Bool
is_package package_id item = item == package_id

occurs-reject :
    (p q : ℕ) (xs : List ℕ)
    → occurs q (reject (is_package p) xs) ≡ (if q == p then 0 else occurs q xs)
unfolding occurs reject
occurs-reject p q [] = ground arith
occurs-reject p q (x ∷ xs) =
    let step = occurs-reject p q xs in
    elim (Bool-cases (x == p)) [ inl e ↦ rw e (ground arith) | inr e ↦ rw e (ground arith) ]

length-reject : (p : ℕ) (xs : List ℕ) → length (reject (is_package p) xs) + occurs p xs ≡ length xs
unfolding occurs reject
length-reject p [] = omega arith
length-reject p (x ∷ xs) =
    let step = length-reject p xs in
    elim (Bool-cases (x == p)) [ inl e ↦ rw e (omega arith) | inr e ↦ rw e (omega arith) ]

-- The vector that `erase` leaves, and its count.
abbrev erased : ℕ → List ℕ → (List ℕ × ℕ) × Unit {0}
erased p items = erase (λ item s. (s, is_package p item)) items (tt {0})

erased-occurs :
    (p q : ℕ) (items : List ℕ)
    → (occurs q (erased p items).0.0 ≡ (if q == p then 0 else occurs q items))
      × ((erased p items).0.1 ≡ occurs p items)
erased-occurs p q items =
    let h = erase-Erases (is_package p) (λ x s. s) items (tt {0}) in
    (
      occurs-Perm q h.left ∙ occurs-reject p q items,
      omega (arith, h.counted, length-reject p items),
    )

links_missing : (q b : ℕ) (apps : Map (List ℕ)) → find_key b apps ≡ none → links q b apps ≡ 0
unfolding packages_of occurs
links_missing q b apps e = rw (packages_of, e) refl

links_there :
    (q b : ℕ) (items : List ℕ) (apps : Map (List ℕ))
    → find_key b apps ≡ some items
    → links q b apps ≡ occurs q items
unfolding packages_of
links_there q b items apps e = rw (packages_of, e) refl

-- One round of the loop that unlinks.
unlink_round :
    (p b : ℕ) (apps : Map (List ℕ))
    → links p b apps ≤ 1
    → (apps' : Map (List ℕ)) × ((ids : List ℕ) → unlink p (b ∷ ids) apps ≡ unlink p ids apps')
      × ((q a : ℕ) → links q a apps' ≡ (if q == p && b == a then 0 else links q a apps))
unfolding unlink
unlink_round p b apps once = elim (Option-cases (find_key b apps)) [
  | inl e ↦ (
    apps,
    λ ids. rw (unlink, e) refl,
    λ q a. elim (Bool-cases (b == a)) [
      | inl f ↦
          let h = subst (λ c. links q c apps ≡ 0) ((==_iff b a).0 f) (links_missing q b apps e) in
          rw f (ground arith)
      | inr f ↦ rw f (ground arith)
    ],
  )
  | inr (items, e) ↦
      let counts = (erased-occurs p p items).1 in
      let found = links_there p b items apps e in
      let fits : ((erased p items).0.1 == 0 || (erased p items).0.1 == 1) ≡ true = ground arith in
      (
        set_key b (erased p items).0.0 apps,
        λ ids. rw (unlink, e, fits) refl,
        λ q a. rw packages_of-set_key (elim (Bool-cases (b == a)) [
          | inl f ↦
              let left = (erased-occurs p q items).0 in
              let same =
                subst (λ c. links q c apps ≡ occurs q items) ((==_iff b a).0 f)
                  (links_there q b items apps e) in
              rw f (ground arith)
          | inr f ↦ rw f (ground arith)
        ]),
      )
]

-- Unlinking a package that stands under no app twice.
pub unlink-links :
    (p : ℕ) (ids : List ℕ) (apps : Map (List ℕ))
    → ((a : ℕ) → links p a apps ≤ 1)
    → (apps' : Map (List ℕ)) × (unlink p ids apps ≡ ok apps')
      × ((q a : ℕ) → links q a apps' ≡ (if q == p && contains a ids then 0 else links q a apps))
unfolding unlink contains
unlink-links p [] apps once = (apps, refl, λ q a. ground arith)
unlink-links p (b ∷ ids) apps once =
    let (apps₁, step, now) = unlink_round p b apps (once b) in
    let (apps', e, later) =
      unlink-links p ids apps₁ (λ a. let n = now p a in let m = once a in ground arith) in
    (apps', step ids ∙ e, λ q a. let n = now q a in let l = later q a in ground arith)

pub packages_of-append :
    (q b p a : ℕ) (apps : Map (List ℕ))
    → links q a (set_key b (packages_of b apps ++ p ∷ []) apps)
      ≡ links q a apps + (if b == a && q == p then 1 else 0)
unfolding occurs
packages_of-append q b p a apps = rw packages_of-set_key (elim (Bool-cases (b == a)) [
  | inl f ↦
      let more = occurs-append q (packages_of b apps) (p ∷ []) in
      let same = ap (λ c. links q c apps) ((==_iff b a).0 f) in rw f (ground arith)
  | inr f ↦ rw f (ground arith)
])

-- Linking a package to apps that do not have it, among which none occurs twice.
pub link-links :
    (p : ℕ) (ids : List ℕ) (apps : Map (List ℕ))
    → Single ids
    → ((a : ℕ) → links p a apps + occurs a ids ≤ 1)
    → ((link p ids apps).1 ≡ true)
      × ((q a : ℕ)
          → links q a (link p ids apps).0 ≡ links q a apps + (if q == p then occurs a ids else 0))
unfolding link occurs
link-links p [] apps single once = (refl, λ q a. ground arith)
link-links p (b ∷ ids) apps single once =
    let apps₁ = set_key b (packages_of b apps ++ p ∷ []) apps in
    let now = λ (q : ℕ) (a : ℕ). packages_of-append q b p a apps in
    let missing : contains p (packages_of b apps) ≡ false =
      let c = occurs-contains p (packages_of b apps) in let o = once b in ground arith in
    let (whole, later) =
      link-links p ids apps₁ (λ x. let s = single x in ground arith)
        (λ a. let n = now p a in let o = once a in let s = single a in ground arith) in
    rw missing (whole, λ q a. let n = now q a in let l = later q a in ground arith)

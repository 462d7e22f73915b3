-- ===== src/LicenseList/Kept.antt =====
-- Which license is kept of each package, and which are counted.
use mathlib.Core.Option.{none-ne-some, some_inj}
use christians_steam_framewo.Base.{
  ℕ, suc, ◌+◌, ◌-◌, ◌^◌, ◌<◌, ◌≤◌, Bool, true, false, not, ◌&&◌, ◌||◌, List, [], ◌∷◌, ◌++◌,
  append_assoc, append-nil, Option, none, some, ok, if◌then◌else◌, leb, ◌==◌, Map, find_key,
  set_key, find_key-set_key, contains, length, length-append, All, ◌≡◌, refl, sym, subst, ==_iff,
  ◌∙◌, ◌⊎◌, Bool-cases, Option-cases, inl, inr, arith,
}
use christians_steam_framewo.LicenseList.{
  LicenseMessage, License, license_info, is_valid, make_license, Collected, nothing, is_new, insert,
  note_new, is_family, emplace, add_license, add_message, add_messages, handle, steam_package,
}

-- The license of a message that the handler does not skip.
unfoldable pub licenses_of : List LicenseMessage → List License
licenses_of [] = []
licenses_of (entry ∷ rest) =
    let ls = licenses_of rest in
    elim entry.package_id [
      | none ↦ ls
      | some package_id ↦
          if package_id == steam_package then ls else license_info package_id entry ∷ ls
    ]

-- The first license that passes a test, and how many do.
unfoldable pub first : (License → Bool) → List License → Option License
first p [] = none
first p (l ∷ ls) = let rest = first p ls in if p l then some l else rest

unfoldable pub count : (License → Bool) → List License → ℕ
count p [] = 0
count p (l ∷ ls) = let n = count p ls in if p l then suc n else n

abbrev pub owns : ℕ → License → Bool
owns package_id l = l.package_id == package_id && not (is_family l)

abbrev pub of_package : ℕ → License → Bool
of_package package_id l = l.package_id == package_id

abbrev pub borrows : ℕ → License → Bool
borrows package_id l = l.package_id == package_id && is_family l

unfoldable pub or_else : Option License → Option License → Option License
or_else none o = o
or_else (some l) o = some l

-- The license to keep of a package: the account's own, and else the first one of the family.
unfoldable pub preferred : ℕ → List License → Option License
unfolding first or_else
preferred package_id ls = or_else (first (owns package_id) ls) (first (borrows package_id) ls)

-- The licenses that are kept and are the family's.
unfoldable pub family_count : Map License → ℕ
family_count [] = 0
family_count ((k, l) ∷ m) = let n = family_count m in if is_family l then suc n else n

first-snoc :
    (p : License → Bool) (ls : List License) (l : License)
    → first p (ls ++ l ∷ [])
      ≡ elim (first p ls) [ none ↦ if p l then some l else none | some k ↦ some k ]
unfolding first
first-snoc p [] l = refl
first-snoc p (k ∷ ls) l = elim (Bool-cases (p k)) [
  | inl e ↦ rw e refl
  | inr e ↦ rw e (first-snoc p ls l)
]

pub count-append :
    (p : License → Bool) (ks ls : List License) → count p (ks ++ ls) ≡ count p ks + count p ls
unfolding count
count-append p [] ls = omega arith
count-append p (k ∷ ks) ls = let step = count-append p ks ls in ground arith

count-none : (p : License → Bool) (ls : List License) → count p ls ≡ 0 → first p ls ≡ none
unfolding count first
count-none p [] h = refl
count-none p (l ∷ ls) h = elim (Bool-cases (p l)) [
  | inl e ↦ absurd (let h' = rw e at h in omega arith)
  | inr e ↦ rw e (count-none p ls (rw e at h))
]

-- What was collected from some licenses, in order.
pub record Collects (existing : Option (Map License)) (ls : List License) (c : Collected)
    : Type 0 where
  pub kept : (package_id : ℕ) → find_key package_id c.licenses ≡ preferred package_id ls
  pub counted : c.family_licenses ≡ family_count c.licenses
  pub news :
      (package_id : ℕ)
      → contains package_id c.new_licenses
        ≡ (leb 1 (count (of_package package_id) ls) && is_new existing package_id)
  pub few : c.family_licenses ≤ length ls

-- No package has two licenses of the account's own.
abbrev pub OwnedOnce : List License → Type 0
OwnedOnce ls = (package_id : ℕ) → count (owns package_id) ls ≤ 1

abbrev one_if : Bool → ℕ
one_if b = if b then 1 else 0

abbrev family_of : Option License → ℕ
family_of none = 0
family_of (some l) = one_if (is_family l)

family_count-set_key :
    (k : ℕ) (l : License) (m : Map License)
    → family_count (set_key k l m) + family_of (find_key k m)
      ≡ family_count m + one_if (is_family l)
unfolding family_count set_key find_key
family_count-set_key k l [] = ground arith
family_count-set_key k l ((j, b) ∷ m) = elim (Bool-cases (j == k)) [
  | inl e ↦ rw e (ground arith)
  | inr e ↦ let step = family_count-set_key k l m in rw e (ground arith)
]

pub first_holds :
    (p : License → Bool) (ls : List License) (l : License) → first p ls ≡ some l → p l ≡ true
unfolding first
first_holds p [] l h = absurd (none-ne-some _ h)
first_holds p (k ∷ ls) l h = elim (Bool-cases (p k)) [
  | inl e ↦ subst (λ x. p x ≡ true) (some_inj.0 (rw e at h)) e
  | inr e ↦ first_holds p ls l (rw e at h)
]

-- The license to keep, once another is offered.
abbrev prefer : Option License → License → Option License
prefer none l = some l
prefer (some k) l = if is_family k && not (is_family l) then some l else some k

preferred-snoc :
    (p : ℕ) (ls : List License) (l : License)
    → preferred p (ls ++ l ∷ [])
      ≡ (if l.package_id == p then prefer (preferred p ls) l else preferred p ls)
unfolding preferred or_else
preferred-snoc p ls l =
    rw (preferred, first-snoc (owns p) ls l, first-snoc (borrows p) ls l)
      (elim (Option-cases (first (owns p) ls)) [
        | inl e ↦ elim (Option-cases (first (borrows p) ls)) [
          | inl f ↦ rw (e, f) (ground arith)
          | inr (k, f) ↦ let h = first_holds (borrows p) ls k f in rw (e, f) (ground arith)
        ]
        | inr (k, e) ↦ let h = first_holds (owns p) ls k e in rw e (ground arith)
      ])

contains-snoc : (x y : ℕ) (xs : List ℕ) → contains x (xs ++ y ∷ []) ≡ ((y == x) || contains x xs)
unfolding contains
contains-snoc x y [] = ground arith
contains-snoc x y (z ∷ xs) = let step = contains-snoc x y xs in ground arith

contains-insert : (x y : ℕ) (xs : List ℕ) → contains x (insert y xs) ≡ ((y == x) || contains x xs)
unfolding insert
contains-insert x y xs = elim (Bool-cases (contains y xs)) [
  | inl e ↦ elim (Bool-cases (y == x)) [
    | inl f ↦ let g : y ≡ x = (==_iff y x).0 f in rw (e, f) (rw g at e)
    | inr f ↦ rw (e, f) refl
  ]
  | inr e ↦ rw e (contains-snoc x y xs)
]

note_new-contains :
    (existing : Option (Map License)) (x y : ℕ) (news : List ℕ)
    → contains x (note_new existing y news) ≡ ((y == x) && is_new existing x || contains x news)
unfolding note_new
note_new-contains existing x y news = elim (Bool-cases (y == x)) [
  | inl e ↦
      let f : y ≡ x = (==_iff y x).0 e in
      rw f (elim (Bool-cases (is_new existing x)) [
        | inl g ↦
            let h : (x == x) ≡ true = ground arith in
            rw (g, h) (let c = contains-insert x x news in rw h at c)
        | inr g ↦ rw g (let h : (x == x) ≡ true = ground arith in rw h refl)
      ])
  | inr e ↦ elim (Bool-cases (is_new existing y)) [
    | inl g ↦ rw (e, g) (rw contains-insert (rw e refl))
    | inr g ↦ rw (e, g) refl
  ]
]

-- The packages noted as new, with one more license.
note_new-news :
    (existing : Option (Map License)) (p : ℕ) (ls : List License) (l : License) (news : List ℕ)
    → contains p news ≡ (leb 1 (count (of_package p) ls) && is_new existing p)
    → contains p (note_new existing l.package_id news)
      ≡ (leb 1 (count (of_package p) (ls ++ l ∷ [])) && is_new existing p)
unfolding count
note_new-news existing p ls l news h = rw (note_new-contains, h, count-append) (ground arith)

-- The licenses found, when the one offered is taken, and when it is not.
find_key-taken :
    (p : ℕ) (ls : List License) (l : License) (m : Map License)
    → ((q : ℕ) → find_key q m ≡ preferred q ls)
    → prefer (find_key l.package_id m) l ≡ some l
    → find_key p (set_key l.package_id l m) ≡ preferred p (ls ++ l ∷ [])
find_key-taken p ls l m h e =
    rw (find_key-set_key, preferred-snoc)
      (elim (Bool-cases (l.package_id == p)) [
        | inl f ↦
            let g : l.package_id ≡ p = (==_iff l.package_id p).0 f in
            let e' = subst (λ q. prefer (find_key q m) l ≡ some l) g e in
            rw f (sym (rw (h p) at e'))
        | inr f ↦ rw f (h p)
      ])

find_key-left :
    (p : ℕ) (ls : List License) (l : License) (m : Map License)
    → ((q : ℕ) → find_key q m ≡ preferred q ls)
    → prefer (find_key l.package_id m) l ≡ find_key l.package_id m
    → find_key p m ≡ preferred p (ls ++ l ∷ [])
find_key-left p ls l m h e = rw preferred-snoc (elim (Bool-cases (l.package_id == p)) [
  | inl f ↦
      let g : l.package_id ≡ p = (==_iff l.package_id p).0 f in
      let e' = subst (λ q. prefer (find_key q m) l ≡ find_key q m) g e in
      rw f (h p ∙ sym (rw (h p) at e'))
  | inr f ↦ rw f (h p)
])

-- A license to keep was the family's, if one of the account's own comes after it.
kept_family :
    (ls : List License) (l k : License)
    → preferred l.package_id ls ≡ some k
    → is_family l ≡ false
    → OwnedOnce (ls ++ l ∷ [])
    → is_family k ≡ true
unfolding preferred or_else count
kept_family ls l k e f once =
    let p = l.package_id in
    let same : (p == p) ≡ true = ground arith in
    let own : owns p l ≡ true = rw (same, f) refl in
    let total = count-append (owns p) ls (l ∷ []) in
    let last : count (owns p) (l ∷ []) ≡ 1 = rw (count, own) refl in
    let missing = count-none (owns p) ls (omega (arith, once p)) in
    let h = first_holds (borrows p) ls k (rw (preferred, missing) at e) in ground arith

-- One more license: what `handle` makes of it.
pub add_license-Collects :
    (existing : Option (Map License)) (ls : List License) (l : License) (c : Collected)
    → Collects existing ls c
    → OwnedOnce (ls ++ l ∷ [])
    → length ls < 2 ^ 64 - 1
    → (c' : Collected) × (add_license existing l c ≡ ok c') × Collects existing (ls ++ l ∷ []) c'
unfolding add_license emplace
add_license-Collects existing ls l c h once few =
    let many = length-append ls (l ∷ []) in
    let sums = family_count-set_key l.package_id l c.licenses in
    let counted = h.counted in
    let bound = h.few in
    elim (Option-cases (find_key l.package_id c.licenses)) [
      | inl e ↦
          let sums' = rw e at sums in
          rw (add_license, emplace, e)
            (
              _,
              refl,
              record {
                kept = λ p. find_key-taken p ls l c.licenses h.kept (rw e refl);
                counted = ground arith;
                news = λ p. note_new-news existing p ls l c.new_licenses (h.news p);
                few = ground arith;
              },
            )
      | inr (k, e) ↦ elim (Bool-cases (is_family l)) [
        | inl f ↦
            rw (add_license, emplace, e, f)
              (
                _,
                refl,
                record {
                  kept = λ p. find_key-left p ls l c.licenses h.kept (rw (e, f) (ground arith));
                  counted = omega arith;
                  news = λ p. note_new-news existing p ls l c.new_licenses (h.news p);
                  few = omega arith;
                },
              )
        | inr f ↦
            let g = kept_family ls l k (sym (h.kept l.package_id) ∙ e) f once in
            let sums' = rw (e, g, f) at sums in
            rw (add_license, emplace, e, f, g)
              (
                _,
                refl,
                record {
                  kept = λ p. find_key-taken p ls l c.licenses h.kept (rw (e, f, g) refl);
                  counted = omega arith;
                  news = λ p. note_new-news existing p ls l c.new_licenses (h.news p);
                  few = omega arith;
                },
              )
      ]
    ]

abbrev pub Valid : LicenseMessage → Type 0
Valid entry = is_valid entry ≡ true

OwnedOnce-prefix : (ks ls : List License) → OwnedOnce (ks ++ ls) → OwnedOnce ks
OwnedOnce-prefix ks ls once p = omega (arith, once p, count-append (owns p) ks ls)

-- The message is skipped, or its license is the next one.
pub add_message-cases :
    (existing : Option (Map License)) (entry : LicenseMessage) (rest : List LicenseMessage)
    → Valid entry
    → ((licenses_of (entry ∷ rest) ≡ licenses_of rest)
        × ((c : Collected) → add_message existing entry c ≡ ok c))
      ⊎ ((l : License) × (licenses_of (entry ∷ rest) ≡ l ∷ licenses_of rest)
          × ((c : Collected) → add_message existing entry c ≡ add_license existing l c))
unfolding licenses_of add_message make_license
add_message-cases existing entry rest valid = elim (Option-cases entry.package_id) [
  | inl e ↦ inl (rw e refl, λ c. rw e refl)
  | inr (p, e) ↦ elim (Bool-cases (p == steam_package)) [
    | inl f ↦ inl (rw (e, f) refl, λ c. rw (e, f) refl)
    | inr f ↦ inr (license_info p entry, rw (e, f) refl, λ c. rw (e, f, valid) refl)
  ]
]

add_messages-Collects :
    (existing : Option (Map License)) (ls : List License) (messages : List LicenseMessage)
    (c : Collected)
    → Collects existing ls c
    → All Valid messages
    → OwnedOnce (ls ++ licenses_of messages)
    → length ls + length messages < 2 ^ 64
    → (c' : Collected) × (add_messages existing messages c ≡ ok c')
      × Collects existing (ls ++ licenses_of messages) c'
unfolding add_messages licenses_of
add_messages-Collects existing ls [] c h valid once few = rw append-nil (c, refl, h)
add_messages-Collects existing ls (entry ∷ rest) c h (v, valid) once few =
    elim (add_message-cases existing entry rest v) [
      | inl (e, step) ↦
          let once' = rw e at once in
          let (c', s, h') = add_messages-Collects existing ls rest c h valid once' (omega arith) in
          rw (e, step c) (c', s, h')
      | inr (l, e, step) ↦
          let once' = rw (e, ← append_assoc ls (l ∷ []) (licenses_of rest)) at once in
          let once'' = OwnedOnce-prefix (ls ++ l ∷ []) (licenses_of rest) once' in
          let (c', s, h') = add_license-Collects existing ls l c h once'' (omega arith) in
          let few' : length (ls ++ l ∷ []) + length rest < 2 ^ 64 =
            omega (arith, length-append ls (l ∷ [])) in
          let (c'', s', h'') =
            add_messages-Collects existing (ls ++ l ∷ []) rest c' h' valid once' few' in
          rw (e, step c, s) (c'', s', rw append_assoc at h'')
    ]

pub Collects-nothing : (existing : Option (Map License)) → Collects existing [] nothing
unfolding find_key preferred or_else first family_count contains count
Collects-nothing existing = record {
  kept = λ p. refl;
  counted = refl;
  news = λ p. refl;
  few = omega arith;
}

-- For fewer than 2^64 messages with change numbers that are not negative, among which no package
-- has two licenses that are not the family's, no assertion fails, and of each package the license
-- that is not the family's is kept, or else the first one; the count is that of the family's
-- licenses kept, and the packages sent as new are those that were not on the whiteboard.
pub handle-Collects :
    (existing : Option (Map License)) (messages : List LicenseMessage)
    → All Valid messages
    → OwnedOnce (licenses_of messages)
    → length messages < 2 ^ 64
    → (c : Collected) × (handle existing messages ≡ ok c)
      × Collects existing (licenses_of messages) c
unfolding handle
handle-Collects existing messages valid once few =
    add_messages-Collects existing [] messages nothing (Collects-nothing existing) valid once
      (omega arith)

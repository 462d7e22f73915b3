-- ===== src/LicenseList/Twice.antt =====
-- What a second license of the account's own for a package does.
use christians_steam_framewo.Base.{
  ℕ, ◌+◌, ◌^◌, ◌<◌, ◌≤◌, Bool, false, List, [], ◌∷◌, ◌++◌, append_assoc, append-nil, Option, some,
  aborted, leb, ◌==◌, Map, length, length-append, All, ◌≡◌, refl, ◌∙◌, ==_iff, subst, Bool-cases,
  inl, inr, arith,
}
use christians_steam_framewo.LicenseList.{
  LicenseMessage, License, Collected, nothing, is_family, emplace, add_license, add_messages,
  handle,
}
use christians_steam_framewo.LicenseList.Kept.{
  licenses_of, first, count, count-append, first_holds, owns, preferred, or_else, Collects,
  OwnedOnce, Valid, add_message-cases, add_license-Collects, Collects-nothing,
}

count-some :
    (p : License → Bool) (ls : List License)
    → 1 ≤ count p ls
    → (l : License) × (first p ls ≡ some l)
unfolding count first
count-some p [] h = absurd (omega arith)
count-some p (l ∷ ls) h = elim (Bool-cases (p l)) [
  | inl e ↦ rw e (l, refl)
  | inr e ↦ rw e (count-some p ls (rw e at h))
]

OwnedOnce-snoc :
    (ls : List License) (l : License)
    → OwnedOnce ls
    → count (owns l.package_id) (ls ++ l ∷ []) ≤ 1
    → OwnedOnce (ls ++ l ∷ [])
unfolding count
OwnedOnce-snoc ls l once last p = elim (Bool-cases (l.package_id == p)) [
  | inl e ↦ subst (λ q. count (owns q) (ls ++ l ∷ []) ≤ 1) ((==_iff l.package_id p).0 e) last
  | inr e ↦
      let all = count-append (owns p) ls (l ∷ []) in
      let none_more : count (owns p) (l ∷ []) ≡ 0 = rw (count, e) refl in omega (arith, once p)
]

add_license_twice :
    (existing : Option (Map License)) (ls : List License) (l : License) (c : Collected)
    → Collects existing ls c
    → OwnedOnce ls
    → 2 ≤ count (owns l.package_id) (ls ++ l ∷ [])
    → add_license existing l c ≡ aborted
unfolding add_license emplace preferred or_else count
add_license_twice existing ls l c h once twice =
    let p = l.package_id in
    let all = count-append (owns p) ls (l ∷ []) in
    let here = once p in
    elim (Bool-cases (owns p l)) [
      | inl e ↦
          let one : count (owns p) (l ∷ []) ≡ 1 = rw (count, e) refl in
          let (k, f) = count-some (owns p) ls (omega arith) in
          let own = first_holds (owns p) ls k f in
          let at : preferred p ls ≡ some k = rw (preferred, f) refl in
          let found = h.kept p ∙ at in
          let a : is_family l ≡ false = ground arith in
          let b : is_family k ≡ false = ground arith in rw (add_license, emplace, found, a, b) refl
      | inr e ↦
          let nothing_more : count (owns p) (l ∷ []) ≡ 0 = rw (count, e) refl in
          absurd (omega arith)
    ]

add_messages_twice :
    (existing : Option (Map License)) (ls : List License) (messages : List LicenseMessage)
    (c : Collected) (p : ℕ)
    → Collects existing ls c
    → OwnedOnce ls
    → All Valid messages
    → 2 ≤ count (owns p) (ls ++ licenses_of messages)
    → length ls + length messages < 2 ^ 64
    → add_messages existing messages c ≡ aborted
unfolding add_messages licenses_of
add_messages_twice existing ls [] c p h once valid twice few =
    let twice' = rw append-nil at twice in absurd (omega (arith, once p))
add_messages_twice existing ls (entry ∷ rest) c p h once (v, valid) twice few =
    elim (add_message-cases existing entry rest v) [
      | inl (e, step) ↦
          let twice' = rw e at twice in
          rw (step c) (add_messages_twice existing ls rest c p h once valid twice' (omega arith))
      | inr (l, e, step) ↦ elim (Bool-cases (leb (count (owns l.package_id) (ls ++ l ∷ [])) 1)) [
        | inl f ↦
            let once' = OwnedOnce-snoc ls l once (ground arith) in
            let (c', s, h') = add_license-Collects existing ls l c h once' (omega arith) in
            let few' : length (ls ++ l ∷ []) + length rest < 2 ^ 64 =
              omega (arith, length-append ls (l ∷ [])) in
            let twice' = rw (e, ← append_assoc ls (l ∷ []) (licenses_of rest)) at twice in
            rw (step c, s)
              (add_messages_twice existing (ls ++ l ∷ []) rest c' p h' once' valid twice' few')
        | inr f ↦ rw (step c, add_license_twice existing ls l c h once (ground arith)) refl
      ]
    ]

-- For fewer than 2^64 messages with change numbers that are not negative, an assertion fails if a
-- package has two licenses that are not the family's.
pub handle_twice :
    (existing : Option (Map License)) (messages : List LicenseMessage) (p : ℕ)
    → All Valid messages
    → 2 ≤ count (owns p) (licenses_of messages)
    → length messages < 2 ^ 64
    → handle existing messages ≡ aborted
unfolding handle count
handle_twice existing messages p valid twice few =
    add_messages_twice existing [] messages nothing p (Collects-nothing existing) (λ q. omega arith)
      valid twice (omega arith)

-- ===== src/PackageData/Twice.antt =====
-- What happens to an item in which an app is listed twice.
use christians_steam_framewo.Base.{
  ℕ, ◌+◌, ◌≤◌, false, List, [], ◌∷◌, ◌++◌, ok, leb, ◌==◌, Map, set_key, contains, occurs,
  occurs-contains, ◌≡◌, refl, subst, ==_iff, Bool-cases, inl, inr, arith,
}
use christians_steam_framewo.PackageData.{PackageInfo, MyPackageData, packages_of, link, store_new}
use christians_steam_framewo.PackageData.Links.{links, packages_of-append}
use christians_steam_framewo.PackageData.Index.{Indexed, unlink_previous-links}

link_twice :
    (p a : ℕ) (ids : List ℕ) (apps : Map (List ℕ))
    → 1 ≤ occurs a ids
    → 2 ≤ links p a apps + occurs a ids
    → (link p ids apps).1 ≡ false
unfolding link occurs
link_twice p a [] apps there twice = absurd (omega arith)
link_twice p a (b ∷ ids) apps there twice = elim (Bool-cases (contains p (packages_of b apps))) [
  | inl e ↦ rw e refl
  | inr e ↦
      let c = occurs-contains p (packages_of b apps) in
      let now = packages_of-append p b p a apps in
      let apps₁ = set_key b (packages_of b apps ++ p ∷ []) apps in
      elim (Bool-cases (b == a)) [
        | inl f ↦
            let same = subst (λ d. leb 1 (links p d apps) ≡ false) ((==_iff b a).0 f) (rw e at c) in
            rw e (link_twice p a ids apps₁ (ground arith) (ground arith))
        | inr f ↦ rw e (link_twice p a ids apps₁ (ground arith) (ground arith))
      ]
]

-- If the two maps of the data agree, and an app is listed twice in an item, then storing that returns,
-- but what is stored for the packages stays as it was.
pub store_new_twice :
    (info : PackageInfo) (s : MyPackageData) (a : ℕ)
    → Indexed s
    → 2 ≤ occurs a info.app_ids
    → (s' : MyPackageData) × (store_new info s ≡ ok s') × (s'.package_data ≡ s.package_data)
unfolding store_new
store_new_twice info s a h twice =
    let (apps, e, gone) = unlink_previous-links info.package_id s h in
    let ends = link_twice info.package_id a info.app_ids apps (omega arith) (omega arith) in
    rw (store_new, e, ends) (_, refl, refl)

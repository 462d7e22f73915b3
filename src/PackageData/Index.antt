-- ===== src/PackageData/Index.antt =====
-- The index from apps to packages, kept up as packages are stored.
use christians_steam_framewo.Base.{
  ℕ, ◌≤◌, List, [], Option, none, some, ok, if◌then◌else◌, ◌==◌, Map, find_key, set_key,
  find_key-set_key, occurs, occurs-contains, ◌≡◌, refl, sym, subst, ==_iff, Bool-cases,
  Option-cases, inl, inr, arith,
}
use christians_steam_framewo.PackageData.Links.{links, Single, unlink-links, link-links}
use christians_steam_framewo.PackageData.{
  PackageInfo, MyPackageData, empty, packages_of, unlink_previous, store_new,
}

-- The apps that are stored for a package.
unfoldable pub apps_of : ℕ → MyPackageData → List ℕ
apps_of package_id s = elim (find_key package_id s.package_data) [
  | none ↦ []
  | some info ↦ info.app_ids
]

-- What is found under a package, if anything, is of this package.
abbrev pub OwnKey : ℕ → Option PackageInfo → Type 0
OwnKey p none = Unit
OwnKey p (some info) = info.package_id ≡ p

-- The two maps agree: a package stands under an app as often as the app is in its data, which is
-- at most once, and each item stands under its own package.
pub record Indexed (s : MyPackageData) : Type 0 where
  pub linked : (p a : ℕ) → links p a s.app_data ≡ occurs a (apps_of p s)
  pub single : (p : ℕ) → Single (apps_of p s)
  pub keyed : (p : ℕ) → OwnKey p (find_key p s.package_data)

pub empty-Indexed : Indexed empty
unfolding packages_of apps_of find_key occurs
empty-Indexed = record { linked = λ p a. refl; single = λ p x. omega arith; keyed = λ p. tt }

pub unlink_previous-links :
    (p : ℕ) (s : MyPackageData)
    → Indexed s
    → (apps : Map (List ℕ)) × (unlink_previous p s ≡ ok apps)
      × ((q a : ℕ) → links q a apps ≡ (if q == p then 0 else links q a s.app_data))
unfolding unlink_previous apps_of occurs
unlink_previous-links p s h = elim (Option-cases (find_key p s.package_data)) [
  | inl e ↦
      let linked = λ (a : ℕ). rw (apps_of, e) at (h.linked p a) in
      rw (unlink_previous, e)
        (
          s.app_data,
          refl,
          λ q a. elim (Bool-cases (q == p)) [
            | inl f ↦
                rw f (subst (λ c. links c a s.app_data ≡ 0) (sym ((==_iff q p).0 f)) (linked a))
            | inr f ↦ rw f refl
          ],
        )
  | inr (old, e) ↦
      let linked = λ (a : ℕ). rw (apps_of, e) at (h.linked p a) in
      let once : (a : ℕ) → links p a s.app_data ≤ 1 =
        λ a. omega (arith, h.linked p a, h.single p a) in
      let (apps, f, l) = unlink-links p old.app_ids s.app_data once in
      rw (unlink_previous, e)
        (
          apps,
          f,
          λ q a. elim (Bool-cases (q == p)) [
            | inl g ↦
                let same =
                  subst (λ c. links c a s.app_data ≡ occurs a old.app_ids) (sym ((==_iff q p).0 g))
                    (linked a) in
                let c = occurs-contains a old.app_ids in let r = l q a in rw g (ground arith)
            | inr g ↦ let r = l q a in rw g (ground arith)
          ],
        )
]

apps_of-set_key :
    (q : ℕ) (info : PackageInfo) (s : MyPackageData) (apps : Map (List ℕ))
    → apps_of q
        (record s { app_data = apps; package_data = set_key info.package_id info s.package_data })
      ≡ (if info.package_id == q then info.app_ids else apps_of q s)
unfolding apps_of
apps_of-set_key q info s apps = elim (Bool-cases (info.package_id == q)) [
  | inl e ↦ rw (apps_of, find_key-set_key, e) refl
  | inr e ↦ rw (apps_of, find_key-set_key, e) refl
]

-- Storing an item in which no app is listed twice: no assertion fails, the maps agree again, and
-- the item is what is found for its package.
pub store_new-Indexed :
    (info : PackageInfo) (s : MyPackageData)
    → Indexed s
    → Single info.app_ids
    → (s' : MyPackageData) × (store_new info s ≡ ok s')
      × Indexed s'
      × ((q : ℕ)
          → find_key q s'.package_data
            ≡ (if info.package_id == q then some info else find_key q s.package_data))
unfolding store_new
store_new-Indexed info s h single =
    let p = info.package_id in
    let (apps, e, gone) = unlink_previous-links p s h in
    let none_left : (a : ℕ) → links p a apps ≡ 0 = λ a. let g = gone p a in ground arith in
    let (whole, linked) =
      link-links p info.app_ids apps single
        (λ a. let s = single a in let n = none_left a in omega arith) in
    rw (store_new, e, whole)
      (
        _,
        refl,
        record {
          linked = λ q a. rw apps_of-set_key (
              let l = linked q a in
              let g = gone q a in
              let k = h.linked q a in
              elim (Bool-cases (p == q)) [
                | inl f ↦ rw f (ground arith)
                | inr f ↦ rw f (ground arith)
              ]);
          single = λ q a. rw apps_of-set_key (elim (Bool-cases (p == q)) [
            | inl f ↦ rw f (single a)
            | inr f ↦ rw f (h.single q a)
          ]);
          keyed = λ q. rw find_key-set_key (elim (Bool-cases (p == q)) [
            | inl g ↦ rw g ((==_iff p q).0 g)
            | inr g ↦ rw g (h.keyed q)
          ]);
        },
        λ q. find_key-set_key q p info s.package_data,
      )

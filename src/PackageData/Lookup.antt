-- ===== src/PackageData/Lookup.antt =====
-- What the lookup of an app finds: the items in whose data the app is.
use mathlib.Core.List.{Memᴰ}
use mathlib.Core.List.Memᴰ
use mathlib.Core.Bool.{true≢false}
use christians_steam_framewo.Base.{
  ℕ, true, List, [], ◌∷◌, some, leb, ◌==◌, Map, find_key, contains, occurs-contains, ◌≡◌, ◌↔◌, refl,
  sym, ap, subst, ◌∙◌, ==_iff, Bool-cases, Option-cases, inl, inr, arith,
}
use christians_steam_framewo.PackageData.{
  PackageInfo, MyPackageData, packages_of, look_up_all, lookup_app,
}
use christians_steam_framewo.PackageData.Index.{apps_of, OwnKey, Indexed}

-- The items found are those of the packages asked for.
look_up_all_sound :
    (ids : List ℕ) (packages : Map PackageInfo) (info : PackageInfo)
    → ((p : ℕ) → OwnKey p (find_key p packages))
    → Memᴰ info (look_up_all ids packages)
    → (find_key info.package_id packages ≡ some info) × (contains info.package_id ids ≡ true)
unfolding look_up_all contains
look_up_all_sound [] packages info keyed m = absurd (Memᴰ.not-nil m)
look_up_all_sound (p ∷ ids) packages info keyed m = elim (Option-cases (find_key p packages)) [
  | inl e ↦
      let (f, c) = look_up_all_sound ids packages info keyed (rw (look_up_all, e) at m) in
      (f, ground arith)
  | inr (i, e) ↦ elim (Memᴰ.cases_cons (rw (look_up_all, e) at m)) [
    | inl g ↦
        let k : info.package_id ≡ p = ap (λ x. x.package_id) g ∙ subst (OwnKey p) e (keyed p) in
        let here : (p == info.package_id) ≡ true = ground arith in
        (
          subst (λ x. find_key info.package_id packages ≡ some x) (sym g)
              (subst (λ q. find_key q packages ≡ some i) (sym k) e),
          rw here refl,
        )
    | inr m' ↦ let (f, c) = look_up_all_sound ids packages info keyed m' in (f, ground arith)
  ]
]

look_up_all_complete :
    (ids : List ℕ) (packages : Map PackageInfo) (info : PackageInfo)
    → find_key info.package_id packages ≡ some info
    → contains info.package_id ids ≡ true
    → Memᴰ info (look_up_all ids packages)
unfolding look_up_all contains
look_up_all_complete [] packages info f c = absurd (true≢false (sym c))
look_up_all_complete (p ∷ ids) packages info f c = elim (Bool-cases (p == info.package_id)) [
  | inl e ↦
      let found : find_key p packages ≡ some info =
        subst (λ q. find_key q packages ≡ some info) (sym ((==_iff p info.package_id).0 e)) f in
      rw (look_up_all, found) (Memᴰ.head refl)
  | inr e ↦
      let rest = look_up_all_complete ids packages info f (rw (contains, e) at c) in
      elim (Option-cases (find_key p packages)) [
        | inl none_there ↦ rw (look_up_all, none_there) rest
        | inr (i, found) ↦ rw (look_up_all, found) (Memᴰ.tail rest)
      ]
]

lookup_app_eq :
    (app_id : ℕ) (s : MyPackageData)
    → lookup_app app_id s ≡ look_up_all (packages_of app_id s.app_data) s.package_data
unfolding lookup_app packages_of look_up_all
lookup_app_eq app_id s = elim (Option-cases (find_key app_id s.app_data)) [
  | inl e ↦ rw (lookup_app, packages_of, e) refl
  | inr (ids, e) ↦ rw (lookup_app, packages_of, e) refl
]

-- An app is in an item's data exactly if the item's package stands under the app.
apps_of-found :
    (s : MyPackageData) (info : PackageInfo) (a : ℕ)
    → Indexed s
    → find_key info.package_id s.package_data ≡ some info
    → contains info.package_id (packages_of a s.app_data) ≡ contains a info.app_ids
unfolding apps_of
apps_of-found s info a h f =
    let l = rw (apps_of, f) at (h.linked info.package_id a) in
    let under = occurs-contains info.package_id (packages_of a s.app_data) in
    let listed = occurs-contains a info.app_ids in sym under ∙ ap (leb 1) l ∙ listed

-- If the two maps agree, the lookup of an app finds an item exactly if it is the one stored for its
-- package and has the app in its data.
pub lookup_app_iff :
    (s : MyPackageData) (a : ℕ) (info : PackageInfo)
    → Indexed s
    → Memᴰ info (lookup_app a s)
      ↔ ((find_key info.package_id s.package_data ≡ some info) × (contains a info.app_ids ≡ true))
lookup_app_iff s a info h = rw lookup_app_eq (
  λ m.
      let (f, c) = look_up_all_sound (packages_of a s.app_data) s.package_data info h.keyed m in
      (f, sym (apps_of-found s info a h f) ∙ c),
  λ (f, c).
      look_up_all_complete (packages_of a s.app_data) s.package_data info f
        (apps_of-found s info a h f ∙ c),
)

-- ===== src/PackageData/Licenses.antt =====
-- Which licenses the data is complete for.
use mathlib.Core.List.{cons-ne-nil}
use mathlib.Core.Bool.{true≢false}
use christians_steam_framewo.Base.{
  ℕ, ◌≤◌, ◌<◌, true, false, List, [], ◌∷◌, some, Outcome, ok, leb, ltb, ◌==◌, Map, find_key, All,
  ◌≡◌, refl, subst, ◌∙◌, Bool-cases, Option-cases, List-cases, ◌⊎◌, ◌≢◌, inl, inr, arith,
}
use christians_steam_framewo.KeyValue.{Item}
use christians_steam_framewo.LicenseList.{License}
use christians_steam_framewo.PackageData.{
  PackageInfo, MyPackageData, PackageMessage, lookup_license, needs_update, check_for_updates,
  update_all,
}
use christians_steam_framewo.PackageData.Links.{Single}
use christians_steam_framewo.PackageData.Index.{OwnKey, Indexed}
use christians_steam_framewo.PackageData.Updates.{
  Store, offer, after, Holds, Reads, update_all-Holds,
}
use christians_steam_framewo.PackageData.Handlers.{PackageDataModule, handle_licenses, add_packages}

-- The lookup of a license finds an item for its package that is not older.
abbrev pub Found : MyPackageData → License → Type 0
Found s license =
    (info : PackageInfo) × (lookup_license license s ≡ some info)
    × (info.package_id ≡ license.package_id)
    × (license.change_number ≤ info.change_number)

needs_update-Found :
    (license : License) (s : MyPackageData) → needs_update license s ≡ false → Found s license
unfolding needs_update lookup_license
needs_update-Found license s h = elim (Option-cases (find_key license.package_id s.package_data)) [
  | inl e ↦ absurd (true≢false (rw (needs_update, e) at h))
  | inr (info, e) ↦
      let h' = rw (needs_update, e) at h in
      let current : leb license.change_number info.change_number ≡ true = ground arith in
      (info, rw (lookup_license, e, current) refl, ground arith, ground arith)
]

check_for_updates-Found :
    (licenses : Map License) (s : MyPackageData)
    → check_for_updates licenses s ≡ []
    → All (λ (_, license). Found s license) licenses
unfolding check_for_updates
check_for_updates-Found [] s h = tt
check_for_updates-Found ((_, license) ∷ rest) s h = elim (Bool-cases (needs_update license s)) [
  | inl e ↦ absurd (cons-ne-nil _ _ (rw (check_for_updates, e) at h))
  | inr e ↦ (
    needs_update-Found license s e,
    check_for_updates-Found rest s (rw (check_for_updates, e) at h),
  )
]

-- A license list that is handled sends one more request, with the job's id, and leaves the item on
-- the whiteboard, or it sends none and is put there at once, and then the lookup of each of its
-- licenses finds an item of its package that is not older.
pub handle_licenses-Found :
    (job_id : ℕ) (licenses : Map License) (m : PackageDataModule)
    → ((needed : List (ℕ × ℕ)) × (needed ≢ [])
        × ((handle_licenses job_id licenses m).requests ≡ (job_id, needed) ∷ m.requests)
        × ((handle_licenses job_id licenses m).current ≡ m.current))
      ⊎ (((handle_licenses job_id licenses m).requests ≡ m.requests)
          × ((handle_licenses job_id licenses m).current ≡ some licenses)
          × All (λ (_, license). Found m.shared license) licenses)
unfolding handle_licenses add_packages
handle_licenses-Found job_id licenses m = elim (List-cases (check_for_updates licenses m.shared)) [
  | inl e ↦ inr (
    rw (handle_licenses, e) refl,
    rw (handle_licenses, e) refl,
    check_for_updates-Found licenses m.shared e,
  )
  | inr (license, rest, e) ↦ inl (
    add_packages (license ∷ rest),
    cons-ne-nil _ _,
    rw (handle_licenses, e) refl,
    rw (handle_licenses, e) refl,
  )
]

-- Change numbers never go down.
after-grows :
    (infos : List PackageInfo) (store : Store) (p : ℕ) (old : PackageInfo)
    → store p ≡ some old
    → (info : PackageInfo) × (after infos store p ≡ some info)
      × (old.change_number ≤ info.change_number)
unfolding after
after-grows [] store p old e = (old, e, omega arith)
after-grows (info ∷ infos) store p old e = elim (Bool-cases (info.package_id == p)) [
  | inl f ↦ elim (Bool-cases (ltb old.change_number info.change_number)) [
    | inl g ↦
        let now : offer info store p ≡ some info = rw (f, e, g) refl in
        let (last, h, l) = after-grows infos (offer info store) p info now in
        (last, h, ground arith)
    | inr g ↦
        let now : offer info store p ≡ some old = rw (f, e, g) refl in
        after-grows infos (offer info store) p old now
  ]
  | inr f ↦
      let now : offer info store p ≡ some old = rw (f, e) refl in
      after-grows infos (offer info store) p old now
]

-- If the two maps of the data agree, and the data has a higher change number than a license, then the
-- updates with responses, each of which is read, as an item that lists no app twice or as one to
-- skip, return, and then the lookup of the license finds an item, but it still needs an update.
pub update_all-stale :
    (to_number : Item → Outcome ℕ) (messages : List PackageMessage) (infos : List PackageInfo)
    (s : MyPackageData) (license : License) (old : PackageInfo)
    → Reads to_number messages infos
    → All (λ info. Single info.app_ids) infos
    → Indexed s
    → find_key license.package_id s.package_data ≡ some old
    → license.change_number < old.change_number
    → (s' : MyPackageData) × (update_all to_number messages s ≡ ok s')
      × Found s' license
      × (needs_update license s' ≡ true)
unfolding needs_update lookup_license
update_all-stale to_number messages infos s license old reads single indexed e l =
    let p = license.package_id in
    let store : Store = λ q. find_key q s.package_data in
    let h : Holds s store = record { indexed = indexed; items = λ q. refl } in
    let (s', f, h') = update_all-Holds to_number messages infos s store reads h single in
    let (info, g, grows) = after-grows infos store p old e in
    let found = h'.items p ∙ g in
    let current : leb license.change_number info.change_number ≡ true = ground arith in
    let differs : (license.change_number == info.change_number) ≡ false = ground arith in
    let same = subst (OwnKey p) found (h'.indexed.keyed p) in
    (
      s',
      f,
      (info, rw (lookup_license, found, current) refl, same, ground arith),
      rw (needs_update, found, differs) (ground arith),
    )

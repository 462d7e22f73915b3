-- ===== src/PackageData/Updates.antt =====
-- What the data is after the updates in the responses, and which licenses need one.
use mathlib.Core.List.{Memᴰ}
use christians_steam_framewo.Base.{
  ℕ, true, false, List, [], ◌∷◌, Option, none, some, Outcome, ok, if◌then◌else◌, ltb, ◌==◌,
  find_key, contains, All, ◌≡◌, ◌↔◌, refl, sym, subst, ◌∙◌, ==_iff, Bool-cases, Option-cases, inl,
  inr,
}
use christians_steam_framewo.KeyValue.{Item}
use christians_steam_framewo.PackageData.{
  PackageInfo, MyPackageData, PackageMessage, empty, is_newer, update_info, read_message, update,
  update_all, lookup_app,
}
use christians_steam_framewo.PackageData.Index.{apps_of, Indexed, empty-Indexed, store_new-Indexed}
use christians_steam_framewo.PackageData.Links.{Single}
use christians_steam_framewo.PackageData.Lookup.{lookup_app_iff}

-- The abstract store has one item for each package at most, and takes an item that is newer.
abbrev pub Store : Type 0
Store = ℕ → Option PackageInfo

abbrev pub newer : Option PackageInfo → PackageInfo → Option PackageInfo
newer none info = some info
newer (some old) info = if ltb old.change_number info.change_number then some info else some old

abbrev pub offer : PackageInfo → Store → Store
offer info store p = if info.package_id == p then newer (store p) info else store p

unfoldable pub after : List PackageInfo → Store → Store
after [] store = store
after (info ∷ rest) store = after rest (offer info store)

-- The data has the items of an abstract store, and its two maps agree.
pub record Holds (s : MyPackageData) (store : Store) : Type 0 where
  pub indexed : Indexed s
  pub items : (p : ℕ) → find_key p s.package_data ≡ store p

stored-Holds :
    (info : PackageInfo) (s : MyPackageData) (store : Store)
    → Holds s store
    → Single info.app_ids
    → newer (store info.package_id) info ≡ some info
    → is_newer info s ≡ true
    → (s' : MyPackageData) × (update_info info s ≡ ok s') × Holds s' (offer info store)
unfolding update_info apps_of
stored-Holds info s store h single stored is_new =
    let (s', e, h', found) = store_new-Indexed info s h.indexed single in
    rw (update_info, is_new, e)
      (
        _,
        refl,
        record {
          indexed = record { linked = h'.linked; single = h'.single; keyed = h'.keyed };
          items = λ q. found q ∙ elim (Bool-cases (info.package_id == q)) [
            | inl f ↦ rw f (
                sym (
                  subst (λ q. newer (store q) info ≡ some info) ((==_iff info.package_id q).0 f)
                    stored))
            | inr f ↦ rw f (h.items q)
          ];
        },
      )

update_info-Holds :
    (info : PackageInfo) (s : MyPackageData) (store : Store)
    → Holds s store
    → Single info.app_ids
    → (s' : MyPackageData) × (update_info info s ≡ ok s') × Holds s' (offer info store)
unfolding update_info is_newer
update_info-Holds info s store h single =
    let p = info.package_id in
    elim (Option-cases (find_key p s.package_data)) [
      | inl e ↦
          let there = sym (h.items p) ∙ e in
          let stored : newer (store p) info ≡ some info = rw there refl in
          let is_new : is_newer info s ≡ true = rw (is_newer, e) refl in
          stored-Holds info s store h single stored is_new
      | inr (old, e) ↦
          let there = sym (h.items p) ∙ e in
          elim (Bool-cases (ltb old.change_number info.change_number)) [
            | inl f ↦
                let stored : newer (store p) info ≡ some info = rw (there, f) refl in
                let is_new : is_newer info s ≡ true = rw (is_newer, e, f) refl in
                stored-Holds info s store h single stored is_new
            | inr f ↦
                let is_old : is_newer info s ≡ false = rw (is_newer, e, f) refl in
                rw (update_info, is_old)
                  (
                    s,
                    refl,
                    record {
                      indexed = h.indexed;
                      items = λ q. h.items q ∙ elim (Bool-cases (p == q)) [
                        | inl g ↦ rw g (
                            subst (λ q. store q ≡ newer (store q) info) ((==_iff p q).0 g)
                              (rw (there, f) refl))
                        | inr g ↦ rw g refl
                      ];
                    },
                  )
          ]
    ]

-- Messages that are read as these items, in order; a message without a package id is skipped.
pub data Reads (to_number : Item → Outcome ℕ)
    : List PackageMessage → List PackageInfo → Type 0 where
  done : Reads to_number [] []
  skipped :
      {entry : PackageMessage} {rest : List PackageMessage} {infos : List PackageInfo}
      → read_message to_number entry ≡ ok none
      → Reads to_number rest infos
      → Reads to_number (entry ∷ rest) infos
  item :
      {entry : PackageMessage} {rest : List PackageMessage} {info : PackageInfo}
      {infos : List PackageInfo}
      → read_message to_number entry ≡ ok (some info)
      → Reads to_number rest infos
      → Reads to_number (entry ∷ rest) (info ∷ infos)

pub update_all-Holds :
    (to_number : Item → Outcome ℕ) (messages : List PackageMessage) (infos : List PackageInfo)
    (s : MyPackageData) (store : Store)
    → Reads to_number messages infos
    → Holds s store
    → All (λ info. Single info.app_ids) infos
    → (s' : MyPackageData) × (update_all to_number messages s ≡ ok s')
      × Holds s' (after infos store)
unfolding update_all update after
update_all-Holds to_number [] [] s store done h single = (s, refl, h)
update_all-Holds to_number [] (info ∷ infos) s store reads h single = elim reads [ ]
update_all-Holds to_number (entry ∷ rest) infos s store (skipped e reads) h single =
    rw (update_all, update, e) (update_all-Holds to_number rest infos s store reads h single)
update_all-Holds to_number (entry ∷ rest) (info ∷ infos) s store (item e reads) h (one, single) =
    let (s₁, f, h₁) = update_info-Holds info s store h one in
    rw (update_all, update, e, f)
      (update_all-Holds to_number rest infos s₁ (offer info store) reads h₁ single)

-- Without an item for any package.
abbrev pub no_items : Store
no_items p = none

-- After messages from an empty state, each of which is read, as an item that lists no app twice or as
-- one to skip, the updates return: storing the items fails no assertion. The item of each package is
-- then the first of those with its highest change number, as the abstract store has it, and an app
-- finds exactly the items that list it.
pub update_all-refines :
    (to_number : Item → Outcome ℕ) (messages : List PackageMessage) (infos : List PackageInfo)
    → Reads to_number messages infos
    → All (λ info. Single info.app_ids) infos
    → (s : MyPackageData) × (update_all to_number messages empty ≡ ok s)
      × ((p : ℕ) → find_key p s.package_data ≡ after infos no_items p)
      × ((a : ℕ) (info : PackageInfo)
          → Memᴰ info (lookup_app a s) ↔ (
              (after infos no_items info.package_id ≡ some info)
              × (contains a info.app_ids ≡ true)))
unfolding find_key
update_all-refines to_number messages infos reads single =
    let start : Holds empty no_items = record { indexed = empty-Indexed; items = λ p. refl } in
    let (s, e, h) = update_all-Holds to_number messages infos empty no_items reads start single in
    (
      s,
      e,
      h.items,
      λ a info.
          subst
            (λ o. Memᴰ info (lookup_app a s) ↔ ((o ≡ some info) × (contains a info.app_ids ≡ true)))
            (h.items info.package_id) (lookup_app_iff s a info h.indexed),
    )

-- ===== src/Tests/Packages.antt =====
-- License lists and the data of packages.
use mathlib.Core.List.{Memᴰ}
use christians_steam_framewo.Base.{
  ℕ, true, List, [], ◌∷◌, none, some, Outcome, ok, aborted, if◌then◌else◌, ◌==◌, Map, find_key,
  contains, occurs, All, ◌≡◌, ◌≢◌, ◌⊎◌, ◌↔◌, refl, arith,
}
use christians_steam_framewo.KeyValue.{Item}
use christians_steam_framewo.LicenseList
use christians_steam_framewo.LicenseList.{
  LicenseMessage, License, Collected, family_group, activation_code, license_info,
}
use christians_steam_framewo.LicenseList.Kept.{
  licenses_of, count, Collects, OwnedOnce, handle-Collects,
}
use christians_steam_framewo.LicenseList.Twice.{handle_twice}
use christians_steam_framewo.PackageData.{
  PackageInfo, MyPackageData, PackageMessage, empty, read_message, read_buffer, store_new,
  update_all, lookup_app, needs_update,
}
use christians_steam_framewo.PackageData.Links.{Single}
use christians_steam_framewo.PackageData.Index.{Indexed, empty-Indexed, store_new-Indexed}
use christians_steam_framewo.PackageData.Twice.{store_new_twice}
use christians_steam_framewo.PackageData.Updates.{Reads, after, no_items, update_all-refines}
use christians_steam_framewo.PackageData.Handlers.{PackageDataModule, handle_licenses}
use christians_steam_framewo.PackageData.Licenses.{Found, handle_licenses-Found, update_all-stale}

-- A license of a package that is paid for in some way.
abbrev entry : ℕ → ℕ → LicenseMessage
entry package_id payment_method = record {
  package_id = some package_id;
  change_number = some 5;
  license_type = none;
  payment_method = some payment_method;
  access_token = none;
  time_created = some 1000;
  time_next_process = none;
}

-- The family's license, then the account's own; and that of another package.
abbrev entries : List LicenseMessage
entries = entry 7 family_group ∷ entry 7 activation_code ∷ entry 8 family_group ∷ []

entries-OwnedOnce : OwnedOnce (licenses_of entries)
unfolding licenses_of count
entries-OwnedOnce p = ground arith

handle-Collects_example :
    (c : Collected) × (LicenseList.handle none entries ≡ ok c)
    × Collects none (licenses_of entries) c
handle-Collects_example =
    handle-Collects none entries (refl, (refl, (refl, tt))) entries-OwnedOnce (omega arith)

handle_twice_example : LicenseList.handle none (entry 7 2 ∷ entry 7 4 ∷ []) ≡ aborted
unfolding licenses_of count
handle_twice_example =
    handle_twice none (entry 7 2 ∷ entry 7 4 ∷ []) 7 (refl, (refl, tt)) (omega arith) (omega arith)

-- The reading of numbers for data without numbers.
abbrev no_number : Item → Outcome ℕ
no_number item = aborted

abbrev message : ℕ → ℕ → PackageMessage
message package_id change_number = record {
  packageid = some package_id;
  change_number = some change_number;
  buffer = none;
}

abbrev item : ℕ → ℕ → PackageInfo
item package_id change_number = record {
  package_id = package_id;
  change_number = change_number;
  app_ids = [];
}

messages-Reads : Reads no_number (message 7 5 ∷ message 7 6 ∷ []) (item 7 5 ∷ item 7 6 ∷ [])
unfolding read_message read_buffer
messages-Reads = Reads.item refl (Reads.item refl Reads.done)

none_twice : Single []
unfolding occurs
none_twice x = omega arith

update_all-refines_example :
    (s : MyPackageData) × (update_all no_number (message 7 5 ∷ message 7 6 ∷ []) empty ≡ ok s)
    × ((p : ℕ) → find_key p s.package_data ≡ after (item 7 5 ∷ item 7 6 ∷ []) no_items p)
    × ((a : ℕ) (info : PackageInfo)
        → Memᴰ info (lookup_app a s) ↔ (
            (after (item 7 5 ∷ item 7 6 ∷ []) no_items info.package_id ≡ some info)
            × (contains a info.app_ids ≡ true)))
update_all-refines_example =
    update_all-refines no_number (message 7 5 ∷ message 7 6 ∷ []) (item 7 5 ∷ item 7 6 ∷ [])
      messages-Reads (none_twice, (none_twice, tt))

store_new_twice_example :
    (s : MyPackageData) × (store_new
        (record { package_id = 7; change_number = 1; app_ids = 10 ∷ 10 ∷ [] })
        empty
      ≡ ok s)
    × (s.package_data ≡ [])
unfolding occurs
store_new_twice_example =
    store_new_twice (record { package_id = 7; change_number = 1; app_ids = 10 ∷ 10 ∷ [] }) empty 10
      empty-Indexed (omega arith)

-- The data once package 7 is stored with change number 6.
stored :
    (s : MyPackageData) × (store_new (item 7 6) empty ≡ ok s)
    × Indexed s
    × ((q : ℕ)
        → find_key q s.package_data
          ≡ (if 7 == q then some (item 7 6) else find_key q empty.package_data))
stored = store_new-Indexed (item 7 6) empty empty-Indexed none_twice

-- The license list, which is older.
abbrev older : License
older = license_info 7 (entry 7 activation_code)

update_all-stale_example :
    (s : MyPackageData) × (update_all no_number (message 7 6 ∷ []) stored.0 ≡ ok s)
    × Found s older
    × (needs_update older s ≡ true)
unfolding read_message read_buffer
update_all-stale_example =
    update_all-stale no_number (message 7 6 ∷ []) (item 7 6 ∷ []) stored.0 older (item 7 6)
      (Reads.item refl Reads.done) (none_twice, tt) stored.2 (stored.3 7) (omega arith)

abbrev older_licenses : Map License
older_licenses = (7, older) ∷ []

abbrev new_module : PackageDataModule
new_module = record {
  shared = empty;
  latest_job_id = 0;
  latest_licenses = none;
  current = none;
  requests = [];
}

handle_licenses-Found_example :
    ((needed : List (ℕ × ℕ)) × (needed ≢ [])
      × ((handle_licenses 9 older_licenses new_module).requests ≡ (9, needed) ∷ [])
      × ((handle_licenses 9 older_licenses new_module).current ≡ none))
    ⊎ (((handle_licenses 9 older_licenses new_module).requests ≡ [])
        × ((handle_licenses 9 older_licenses new_module).current ≡ some older_licenses)
        × All (λ (_, license). Found new_module.shared license) older_licenses)
handle_licenses-Found_example = handle_licenses-Found 9 older_licenses new_module

-- ===== src/PackageData.antt =====
-- Sources/Modules/PackageData.cpp and Headers/Modules/PackageData.hpp: what Steam says about the
-- packages of the account's licenses, and which packages an app is in. The mutex and the file that
-- keeps the data are not modelled, and `toNumber`, which the JSON library does, is a parameter.
pub mod Links
pub mod Index
pub mod Twice
pub mod Updates
pub mod Lookup
pub mod Handlers
pub mod Licenses
use christians_steam_framewo.Base.{
  ℕ, zero, suc, ◌+◌, Bool, true, false, not, ◌&&◌, ◌||◌, List, [], ◌∷◌, ◌++◌, Option, none, some,
  Bytes, codes, Outcome, ok, aborted, assert, ◌>>=◌, ◌>>◌, if◌then◌else◌, ltb, leb, ◌==◌, Map,
  find_key, set_key, contains, length, drop,
}
use christians_steam_framewo.Vector.{erase}
use christians_steam_framewo.KeyValue.{
  Item, string, int32, int64, uint64, node, Node, no_children, child, find,
}
use christians_steam_framewo.KeyValue.Binary.{deserialize}
use christians_steam_framewo.LicenseList.{License, value_or_zero}

-- PackageInfo: its LicenseIdentifier, and the apps that `setData` found in its data.
pub record PackageInfo : Type 0 where
  pub package_id : ℕ
  pub change_number : ℕ
  pub app_ids : List ℕ

pub record MyPackageData : Type 0 where
  pub package_data : Map PackageInfo
  pub app_data : Map (List ℕ)
  pub was_updated : Bool

abbrev pub empty : MyPackageData
empty = record { package_data = []; app_data = []; was_updated = false }

-- What `appData` has for an app; `operator[]` makes an empty vector of what is missing.
unfoldable pub packages_of : ℕ → Map (List ℕ) → List ℕ
packages_of app_id apps = elim (find_key app_id apps) [ none ↦ [] | some items ↦ items ]

-- The loop over the apps of the previous item.
unfoldable pub unlink : ℕ → List ℕ → Map (List ℕ) → Outcome (Map (List ℕ))
unfolding erase
unlink package_id [] apps = ok apps
unlink package_id (app_id ∷ rest) apps = elim (find_key app_id apps) [
  | none ↦ unlink package_id rest apps
  | some items ↦
      let ((items', count), _) = erase (λ item s. (s, item == package_id)) items (tt {0}) in
      assert (count == 0 || count == 1) >> unlink package_id rest (set_key app_id items' apps)
]

-- The loop over the apps of the new item, and whether it came to its end.
unfoldable pub link : ℕ → List ℕ → Map (List ℕ) → Map (List ℕ) × Bool
unfolding packages_of
link package_id [] apps = (apps, true)
link package_id (app_id ∷ rest) apps =
    let items = packages_of app_id apps in
    let linked = link package_id rest (set_key app_id (items ++ package_id ∷ []) apps) in
    if contains package_id items then (set_key app_id items apps, false) else linked

-- The apps of the item that is stored for a package.
unfoldable pub unlink_previous : ℕ → MyPackageData → Outcome (Map (List ℕ))
unfolding unlink
unlink_previous package_id s = elim (find_key package_id s.package_data) [
  | none ↦ ok s.app_data
  | some previous ↦ unlink package_id previous.app_ids s.app_data
]

-- storeNew_noLock
unfoldable pub store_new : PackageInfo → MyPackageData → Outcome MyPackageData
unfolding unlink_previous link
store_new info s = unlink_previous info.package_id s >>= λ apps.
    let (apps', whole) = link info.package_id info.app_ids apps in
    let linked = record s { app_data = apps' } in
    ok (
      if whole
      then record linked { package_data = set_key info.package_id info s.package_data }
      else linked)

-- CMsgClientPICSProductInfoResponse_PackageInfo, the fields that the code reads.
pub record PackageMessage : Type 0 where
  pub packageid : Option ℕ
  pub change_number : Option ℕ
  pub buffer : Option Bytes

module _ (to_number : Item → Outcome ℕ) where
  -- The loop of `setData`.
  unfoldable pub add_numbers : Node → List ℕ → Outcome (List ℕ)
  add_numbers no_children app_ids = ok app_ids
  add_numbers (child name item rest) app_ids =
      to_number item >>= λ app_id. add_numbers rest (app_ids ++ app_id ∷ [])

  -- setData, of a tree that became a JSON object: the numbers in "appids".
  unfoldable pub set_data : Node → Outcome (List ℕ)
  unfolding add_numbers
  set_data tree = elim (find (codes "appids") tree) [
    | some (node appids) ↦ add_numbers appids []
    | _ ↦ ok []
  ]

  -- What `update` reads from the buffer, without the four bytes in front of it.
  unfoldable pub read_buffer : Option Bytes → Outcome (List ℕ)
  unfolding set_data
  read_buffer none = ok []
  read_buffer (some bytes) =
      if leb 4 (length bytes)
      then (deserialize (drop 4 bytes) >>= λ read. elim read [
        | none ↦ ok []
        | some (name, tree) ↦ set_data tree
      ])
      else ok []

-- Whether the data for a package has a change number that is higher than what is stored.
unfoldable pub is_newer : PackageInfo → MyPackageData → Bool
is_newer info s = elim (find_key info.package_id s.package_data) [
  | none ↦ true
  | some previous ↦ ltb previous.change_number info.change_number
]

-- The end of `update`.
unfoldable pub update_info : PackageInfo → MyPackageData → Outcome MyPackageData
unfolding is_newer store_new
update_info info s =
    if is_newer info s
    then (store_new info s >>= λ s'. ok (record s' { was_updated = true }))
    else ok s

-- The first half of `update`, which reads the message.
unfoldable pub read_message :
    (to_number : Item → Outcome ℕ) → PackageMessage → Outcome (Option PackageInfo)
unfolding read_buffer
read_message to_number entry = elim entry.packageid [
  | none ↦ ok none
  | some package_id ↦
      let number = value_or_zero entry.change_number in
      read_buffer to_number entry.buffer >>= λ app_ids.
      ok (some (record { package_id = package_id; change_number = number; app_ids = app_ids }))
]

unfoldable pub update :
    (to_number : Item → Outcome ℕ) → PackageMessage → MyPackageData → Outcome MyPackageData
unfolding read_message update_info
update to_number entry s = read_message to_number entry >>= λ read. elim read [
  | none ↦ ok s
  | some info ↦ update_info info s
]

-- The loop over the packages of a response.
unfoldable pub update_all :
    (to_number : Item → Outcome ℕ) → List PackageMessage → MyPackageData → Outcome MyPackageData
unfolding update
update_all to_number [] s = ok s
update_all to_number (entry ∷ rest) s =
    update to_number entry s >>= λ s'. update_all to_number rest s'

-- lookup, of a license
unfoldable pub lookup_license : License → MyPackageData → Option PackageInfo
lookup_license license s = elim (find_key license.package_id s.package_data) [
  | none ↦ none
  | some info ↦ if leb license.change_number info.change_number then some info else none
]

-- The loop of the lookup of an app.
unfoldable pub look_up_all : List ℕ → Map PackageInfo → List PackageInfo
look_up_all [] packages = []
look_up_all (package_id ∷ rest) packages =
    let infos = look_up_all rest packages in
    elim (find_key package_id packages) [ none ↦ infos | some info ↦ info ∷ infos ]

-- lookup, of an app
unfoldable pub lookup_app : ℕ → MyPackageData → List PackageInfo
unfolding look_up_all
lookup_app app_id s = elim (find_key app_id s.app_data) [
  | none ↦ []
  | some package_ids ↦ look_up_all package_ids s.package_data
]

-- The test in `checkForUpdates`: the LicenseIdentifiers are compared.
unfoldable pub needs_update : License → MyPackageData → Bool
needs_update license s = elim (find_key license.package_id s.package_data) [
  | none ↦ true
  | some info ↦
      not (license.package_id == info.package_id && license.change_number == info.change_number)
]

unfoldable pub check_for_updates : Map License → MyPackageData → List License
unfolding needs_update
check_for_updates [] s = []
check_for_updates ((_, license) ∷ rest) s =
    let update_list = check_for_updates rest s in
    if needs_update license s then license ∷ update_list else update_list

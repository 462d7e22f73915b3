-- ===== src/LicenseList.antt =====
-- Sources/Modules/LicenseList.cpp and Headers/Modules/LicenseList.hpp: the list of the account's
-- licenses. A license message has a number for each of its fields that is present, a signed one as
-- its bit pattern. Times are in seconds since the epoch.
pub mod Kept
pub mod Twice
use christians_steam_framewo.Base.{
  ℕ, zero, suc, ◌+◌, ◌-◌, ◌%◌, ◌^◌, Bool, true, false, List, [], ◌∷◌, ◌++◌, Option, none, some,
  Outcome, ok, assert, ◌>>=◌, ◌>>◌, if◌then◌else◌, ltb, ◌==◌, Map, find_key, set_key, contains,
}

-- PackageID::Steam
abbrev pub steam_package : ℕ
steam_package = 0

-- PaymentMethod, the values that the code names.
abbrev pub activation_code : ℕ
activation_code = 1

abbrev pub complimentary : ℕ
complimentary = 1024

abbrev pub family_group : ℕ
family_group = 1025

-- CMsgClientLicenseList_License, the fields that the code reads.
pub record LicenseMessage : Type 0 where
  pub package_id : Option ℕ
  pub change_number : Option ℕ
  pub license_type : Option ℕ
  pub payment_method : Option ℕ
  pub access_token : Option ℕ
  pub time_created : Option ℕ
  pub time_next_process : Option ℕ

-- LicenseIdentifier and LicenseInfo
pub record License : Type 0 where
  pub package_id : ℕ
  pub change_number : ℕ
  pub access_token : ℕ
  pub license_type : ℕ
  pub payment_method : ℕ
  pub time_created : ℕ
  pub time_next_process : ℕ

-- A field that is missing leaves the member's initial value, which is 0 for all of them.
abbrev pub value_or_zero : Option ℕ → ℕ
value_or_zero none = 0
value_or_zero (some n) = n

abbrev pub license_info : ℕ → LicenseMessage → License
license_info package_id entry = record {
  package_id = package_id;
  change_number = value_or_zero entry.change_number;
  access_token = value_or_zero entry.access_token;
  license_type = value_or_zero entry.license_type;
  payment_method = value_or_zero entry.payment_method;
  time_created = value_or_zero entry.time_created;
  time_next_process = value_or_zero entry.time_next_process;
}

-- assert(number>=0)
abbrev pub is_valid : LicenseMessage → Bool
is_valid entry = ltb (value_or_zero entry.change_number) (2 ^ 31)

unfoldable pub make_license : ℕ → LicenseMessage → Outcome License
make_license package_id entry = assert (is_valid entry) >> ok (license_info package_id entry)

-- What `handle` collects: the licenses, the packages of `newLicenses`, and `familyLicenses`.
pub record Collected : Type 0 where
  pub licenses : Map License
  pub new_licenses : List ℕ
  pub family_licenses : ℕ

abbrev pub nothing : Collected
nothing = record { licenses = []; new_licenses = []; family_licenses = 0 }

-- Whether a package is not among the licenses on the whiteboard.
unfoldable pub is_new : Option (Map License) → ℕ → Bool
is_new none package_id = true
is_new (some existing) package_id = elim (find_key package_id existing) [
  | none ↦ true
  | some license ↦ false
]

-- The insertion into a set.
unfoldable pub insert : ℕ → List ℕ → List ℕ
insert x xs = if contains x xs then xs else xs ++ x ∷ []

unfoldable pub note_new : Option (Map License) → ℕ → List ℕ → List ℕ
unfolding is_new insert
note_new existing package_id news =
    if is_new existing package_id then insert package_id news else news

abbrev pub is_family : License → Bool
is_family license = license.payment_method == family_group

-- `try_emplace` and what is done if there was a license already.
unfoldable pub emplace : License → Collected → Outcome Collected
emplace license c = elim (find_key license.package_id c.licenses) [
  | none ↦ ok (record c { licenses = set_key license.package_id license c.licenses })
  | some kept ↦
      let fewer = record c { family_licenses = (c.family_licenses + (2 ^ 64 - 1)) % 2 ^ 64 } in
      if is_family license
      then ok fewer
      else assert (is_family kept)
        >> ok (record fewer { licenses = set_key license.package_id license c.licenses })
]

unfoldable pub add_license : Option (Map License) → License → Collected → Outcome Collected
unfolding note_new emplace
add_license existing license c =
    let more = (c.family_licenses + 1) % 2 ^ 64 in
    emplace license (record c {
      new_licenses = note_new existing license.package_id c.new_licenses;
      family_licenses = if is_family license then more else c.family_licenses;
    })

-- The loop's body.
unfoldable pub add_message : Option (Map License) → LicenseMessage → Collected → Outcome Collected
unfolding make_license add_license
add_message existing entry c = elim entry.package_id [
  | none ↦ ok c
  | some package_id ↦
      if package_id == steam_package
      then ok c
      else make_license package_id entry >>= λ license. add_license existing license c
]

unfoldable pub add_messages :
    Option (Map License) → List LicenseMessage → Collected → Outcome Collected
unfolding add_message
add_messages existing [] c = ok c
add_messages existing (entry ∷ rest) c =
    add_message existing entry c >>= λ c'. add_messages existing rest c'

-- What is put on the whiteboard, sent as `NewLicenses`, and printed.
unfoldable pub handle : Option (Map License) → List LicenseMessage → Outcome Collected
unfolding add_messages
handle existing messages = add_messages existing messages nothing

-- Licenses::getInfo
unfoldable pub get_info : ℕ → Map License → Option License
get_info package_id licenses = find_key package_id licenses

-- The item on the whiteboard may be missing.
unfoldable pub get_license_info : Option (Map License) → ℕ → Option License
unfolding get_info
get_license_info none package_id = none
get_license_info (some licenses) package_id = get_info package_id licenses

-- ===== src/PackageData/Handlers.antt =====
-- The handlers of the module in Sources/Modules/PackageData.cpp: what is requested from Steam, and
-- when the whiteboard says that the data is complete. The job id of a request is an argument. The
-- update of the app infos and the file that `save` writes are not modelled.
use christians_steam_framewo.Base.{
  ℕ, false, List, [], ◌∷◌, Option, none, some, Outcome, ok, aborted, ◌>>=◌, if◌then◌else◌, ◌==◌,
  Map,
}
use christians_steam_framewo.KeyValue.{Item}
use christians_steam_framewo.LicenseList.{License}
use christians_steam_framewo.PackageData.{
  MyPackageData, PackageMessage, update_all, check_for_updates,
}

-- The module with the data that all clients share. `current` is the PackageData item on the
-- whiteboard, and `requests` has the job id of each request with its packages and their tokens.
pub record PackageDataModule : Type 0 where
  pub shared : MyPackageData
  pub latest_job_id : ℕ
  pub latest_licenses : Option (Map License)
  pub current : Option (Map License)
  pub requests : List (ℕ × List (ℕ × ℕ))

-- The loop that fills the request.
unfoldable pub add_packages : List License → List (ℕ × ℕ)
add_packages [] = []
add_packages (license ∷ rest) = (license.package_id, license.access_token) ∷ add_packages rest

-- handle, of a license list
unfoldable pub handle_licenses : ℕ → Map License → PackageDataModule → PackageDataModule
unfolding check_for_updates add_packages
handle_licenses job_id licenses m = elim (check_for_updates licenses m.shared) [
  | [] ↦ record m { latest_licenses = some licenses; current = some licenses }
  | license ∷ rest ↦ record m {
    latest_licenses = some licenses;
    latest_job_id = job_id;
    requests = (job_id, add_packages (license ∷ rest)) ∷ m.requests;
  }
]

-- `save`, but for the file.
unfoldable pub save : MyPackageData → MyPackageData
save s = record s { was_updated = false }

-- What the handler of a response does if it was for the latest request; without licenses, it
-- dereferences a null pointer.
unfoldable pub announce : ℕ → PackageDataModule → Outcome PackageDataModule
announce target m =
    if target == m.latest_job_id
    then elim m.latest_licenses [
      | none ↦ aborted
      | some licenses ↦ ok (record m { current = some licenses })
    ]
    else ok m

-- handle, of a response to the job `target`
unfoldable pub handle_response :
    (to_number : Item → Outcome ℕ)
    → List PackageMessage
    → ℕ
    → PackageDataModule
    → Outcome PackageDataModule
unfolding save announce update_all
handle_response to_number packages target m =
    update_all to_number packages m.shared >>= λ s. announce target (record m { shared = save s })

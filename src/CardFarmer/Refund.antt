-- ===== src/CardFarmer/Refund.antt =====
-- Which games are refundable.
use mathlib.Core.List.{Memᴰ}
use mathlib.Core.List.Memᴰ
use mathlib.Core.Bool.{true≢false}
use christians_steam_framewo.Base.{
  ℕ, ◌+◌, ◌≤◌, true, false, List, [], ◌∷◌, Option, some, leb, ◌==◌, Map, find_key, contains, ◌≡◌,
  ◌↔◌, refl, sym, subst, Bool-cases, Option-cases, inl, inr, arith,
}
use christians_steam_framewo.LicenseList.{License, activation_code, complimentary, get_license_info}
use christians_steam_framewo.PackageData.{PackageInfo, lookup_app}
use christians_steam_framewo.PackageData.Index.{Indexed}
use christians_steam_framewo.PackageData.Lookup.{lookup_app_iff}
use christians_steam_framewo.CardFarmer.{
  FarmInfo, Client, steam_refund_play_time, steam_refund_purchase_time, is_refundable_license,
  has_refundable, is_refundable,
}

-- A stored item lists the app, and the account has a license for its package that was paid for
-- otherwise than with an activation code or as complimentary, no more than 15 days ago.
pub record Refundable (now : ℕ) (client : Client) (game : FarmInfo) : Type 0 where
  pub played_little : game.playtime ≤ steam_refund_play_time
  pub package_info : PackageInfo
  pub stored : find_key package_info.package_id client.packages.package_data ≡ some package_info
  pub listed : contains game.app_id package_info.app_ids ≡ true
  pub license : License
  pub licensed : get_license_info client.licenses package_info.package_id ≡ some license
  pub no_code : (license.payment_method == activation_code) ≡ false
  pub no_gift : (license.payment_method == complimentary) ≡ false
  pub recent : now ≤ license.time_created + steam_refund_purchase_time

has_refundable_sound :
    (now : ℕ) (licenses : Option (Map License)) (infos : List PackageInfo)
    → has_refundable now licenses infos ≡ true
    → (info : PackageInfo) × (license : License) × Memᴰ info infos
      × (get_license_info licenses info.package_id ≡ some license)
      × (is_refundable_license now license ≡ true)
unfolding has_refundable
has_refundable_sound now licenses [] h = absurd (true≢false (sym h))
has_refundable_sound now licenses (info ∷ infos) h =
    elim (Option-cases (get_license_info licenses info.package_id)) [
      | inl e ↦
          let (i, l, m, f, r) =
            has_refundable_sound now licenses infos (rw (has_refundable, e) at h) in
          (i, l, Memᴰ.tail m, f, r)
      | inr (license, e) ↦ elim (Bool-cases (is_refundable_license now license)) [
        | inl r ↦ (info, license, Memᴰ.head refl, e, r)
        | inr n ↦
            let h' = rw (has_refundable, e, n) at h in
            let (i, l, m, f, r) = has_refundable_sound now licenses infos h' in
            (i, l, Memᴰ.tail m, f, r)
      ]
    ]

has_refundable_complete :
    (now : ℕ) (licenses : Option (Map License)) (infos : List PackageInfo) (info : PackageInfo)
    (license : License)
    → Memᴰ info infos
    → get_license_info licenses info.package_id ≡ some license
    → is_refundable_license now license ≡ true
    → has_refundable now licenses infos ≡ true
unfolding has_refundable
has_refundable_complete now licenses [] info license m e r = absurd (Memᴰ.not-nil m)
has_refundable_complete now licenses (i ∷ infos) info license m e r = elim (Memᴰ.cases_cons m) [
  | inl f ↦
      let e' = subst (λ x. get_license_info licenses x.package_id ≡ some license) f e in
      rw (has_refundable, e', r) refl
  | inr m' ↦
      let rest = has_refundable_complete now licenses infos info license m' e r in
      elim (Option-cases (get_license_info licenses i.package_id)) [
        | inl n ↦ rw (has_refundable, n) rest
        | inr (l, n) ↦ elim (Bool-cases (is_refundable_license now l)) [
          | inl b ↦ rw (has_refundable, n, b) refl
          | inr b ↦ rw (has_refundable, n, b) rest
        ]
      ]
]

-- If the two maps of the package data agree, a game counts as refundable exactly if it was played
-- for no more than 150 minutes and a license of that kind is known for one of its packages; what is
-- not known about packages or licenses does not make it refundable.
pub is_refundable_iff :
    (now : ℕ) (client : Client) (game : FarmInfo)
    → Indexed client.packages
    → (is_refundable now client game ≡ true) ↔ Refundable now client game
unfolding is_refundable is_refundable_license
is_refundable_iff now client game h = (
  λ r. elim (Bool-cases (leb game.playtime steam_refund_play_time)) [
    | inl e ↦
        let r' = rw (is_refundable, e) at r in
        let (info, license, m, licensed, kind) =
          has_refundable_sound now client.licenses (lookup_app game.app_id client.packages) r' in
        let (stored, listed) = (lookup_app_iff client.packages game.app_id info h).0 m in
        record {
          played_little = ground arith;
          package_info = info;
          stored = stored;
          listed = listed;
          license = license;
          licensed = licensed;
          no_code = ground arith;
          no_gift = ground arith;
          recent = ground arith;
        }
    | inr e ↦ absurd (true≢false (sym (rw (is_refundable, e) at r)))
  ],
  λ r.
      let m =
        (lookup_app_iff client.packages game.app_id r.package_info h).1 (r.stored, r.listed) in
      let kind : is_refundable_license now r.license ≡ true =
        let a = r.no_code in let b = r.no_gift in let c = r.recent in ground arith in
      let found =
        has_refundable_complete now client.licenses (lookup_app game.app_id client.packages)
          r.package_info r.license m r.licensed kind in
      let little : leb game.playtime steam_refund_play_time ≡ true =
        let l = r.played_little in ground arith in
      rw (is_refundable, little) found,
)

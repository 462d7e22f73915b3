-- ===== src/CookieJar/Updates.antt =====
-- The cookies that the set-cookie headers of a response leave in the jar.
use mathlib.Core.Option.{some_inj, none-ne-some}
use christians_steam_framewo.Base.{
  List, [], ◌∷◌, Option, some, Bytes, ◌≡◌, subst, Option-cases, List-cases, inl, inr,
}
use christians_steam_framewo.CookieJar.{
  Cookie, Url, empty_cookie, find_domain, set_domain, set_content, split, make_cookie, store,
  update_headers,
}
use christians_steam_framewo.CookieJar.Store.{Distinct, store-Distinct}
use christians_steam_framewo.CookieJar.Domain.{
  Dotted, AllDotted, store-AllDotted, find_domain-Dotted,
}

set_domain-Dotted :
    (items : List Bytes) (url : Option Url) (cookie c : Cookie)
    → set_domain items url cookie ≡ some c
    → Dotted c.domain
unfolding set_domain
set_domain-Dotted items url cookie c e = elim (Option-cases (find_domain items url)) [
  | inl n ↦ absurd (none-ne-some _ (rw (set_domain, n) at e))
  | inr (d, n) ↦
      subst (λ c. Dotted c.domain) (some_inj.0 (rw (set_domain, n) at e))
        (find_domain-Dotted items url d n)
]

make_cookie-Dotted :
    (s : Bytes) (url : Option Url) (c : Cookie) → make_cookie s url ≡ some c → Dotted c.domain
unfolding make_cookie
make_cookie-Dotted s url c e = elim (List-cases (split s)) [
  | inl n ↦ absurd (none-ne-some _ (rw (make_cookie, n) at e))
  | inr (item, items, n) ↦
      set_domain-Dotted items url (set_content item empty_cookie) c (rw (make_cookie, n) at e)
]

-- Whatever a response's set-cookie headers are, updating a jar of distinct cookies with dotted
-- domains leaves such a jar.
pub update_headers-kept :
    (url : Url) (headers : List Bytes) (jar : List Cookie)
    → Distinct jar
    → AllDotted jar
    → Distinct (update_headers url headers jar).0 × AllDotted (update_headers url headers jar).0
unfolding update_headers
update_headers-kept url [] jar d a = (d, a)
update_headers-kept url (h ∷ hs) jar d a = elim (Option-cases (make_cookie h (some url))) [
  | inl n ↦ rw (update_headers, n) (update_headers-kept url hs jar d a)
  | inr (c, n) ↦
      rw (update_headers, n)
        (update_headers-kept url hs (store c jar).0 (store-Distinct c jar d)
          (store-AllDotted c jar (make_cookie-Dotted h (some url) c n) a))
]

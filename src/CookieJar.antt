-- ===== src/CookieJar.antt =====
-- Sources/Web/CookieJar.cpp, Headers/Web/CookieJar.hpp and Sources/Web/Cookies.cpp: cookies. A URL
-- is Boost.URL's: what it says of its host is a value of `Url`. The path of a cookie stays empty.
pub mod Store
pub mod Domain
pub mod Updates
use christians_steam_framewo.Base.{
  ℕ, zero, suc, ◌+◌, ◌-◌, ◌≤◌, Bool, true, false, not, ◌&&◌, List, [], ◌∷◌, ◌++◌, Option, none,
  some, if◌then◌else◌, ◌==◌, leb, drop, length, Bytes, bytes_eq, codes, Outcome, ok, aborted, ◌>>=◌,
}
use christians_steam_framewo.StringCompare.{compare_equal}

pub record Cookie : Type 0 where
  pub domain : Bytes
  pub path : Bytes
  pub name : Bytes
  pub value : Bytes

-- `host_type()==host_type::name` and `host_name()` of a boost::urls::url_view_base
pub record Url : Type 0 where
  pub has_name : Bool
  pub host_name : Bytes

unfoldable pub match : Cookie → Cookie → Bool
match a b = bytes_eq a.name b.name && bytes_eq a.path b.path && compare_equal a.domain b.domain

-- The two loops of `trimSpaces`.
unfoldable pub trim_front : Bytes → Bytes
trim_front [] = []
trim_front (c ∷ s) = let rest = trim_front s in if c == 32 then rest else c ∷ s

unfoldable pub trim_back : Bytes → Bytes
trim_back [] = []
trim_back (c ∷ s) = elim (trim_back s) [ [] ↦ if c == 32 then [] else c ∷ [] | d ∷ t ↦ c ∷ d ∷ t ]

unfoldable pub trim_spaces : Bytes → Bytes
unfolding trim_front trim_back
trim_spaces s = trim_back (trim_front s)

-- The loop of `split`, with the item so far. A NUL ends the string.
unfoldable pub split_from : Bytes → Bytes → List Bytes
unfolding trim_spaces
split_from item [] = trim_spaces item ∷ []
split_from item (c ∷ s) =
    let next = split_from [] s in
    let more = split_from (item ++ c ∷ []) s in
    if c == 0 then trim_spaces item ∷ [] else if c == 59 then trim_spaces item ∷ next else more

unfoldable pub split : Bytes → List Bytes
unfolding split_from
split s = split_from [] s

-- `find('=')`: what stands before the first '=', and behind it.
unfoldable pub find_equals : Bytes → Option (Bytes × Bytes)
find_equals [] = none
find_equals (c ∷ s) =
    let rest = find_equals s in
    if c == 61 then some ([], s) else elim rest [ none ↦ none | some (a, b) ↦ some (c ∷ a, b) ]

-- `equals!=npos && equals>0`: the name and the value of an item.
unfoldable pub name_and_value : Bytes → Option (Bytes × Bytes)
unfolding find_equals trim_spaces
name_and_value s = elim (find_equals s) [
  | none ↦ none
  | some (a, b) ↦ elim a [ [] ↦ none | c ∷ t ↦ some (trim_spaces (c ∷ t), trim_spaces b) ]
]

unfoldable pub set_content : Bytes → Cookie → Cookie
unfolding name_and_value
set_content s cookie = elim (name_and_value s) [
  | none ↦ record cookie { value = s }
  | some (n, v) ↦ record cookie { name = n; value = v }
]

unfoldable pub find_item : List Bytes → Bytes → Bytes
unfolding name_and_value
find_item [] name = []
find_item (item ∷ items) name =
    let rest = find_item items name in
    elim (name_and_value item) [
      | none ↦ rest
      | some (n, v) ↦ if compare_equal name n then v else rest
    ]

-- `front()!='.'`; `front` is defined for a domain that is not empty.
unfoldable pub with_dot : Bytes → Bytes
with_dot [] = 46 ∷ []
with_dot (c ∷ s) = if c == 46 then c ∷ s else 46 ∷ c ∷ s

-- The domain; none stands for an InvalidCookieException.
unfoldable pub find_domain : List Bytes → Option Url → Option Bytes
unfolding find_item with_dot
find_domain items url = elim (find_item items (codes "Domain")) [
  | [] ↦ elim url [
    | none ↦ none
    | some u ↦ if u.has_name then some (with_dot u.host_name) else none
  ]
  | c ∷ s ↦ some (with_dot (c ∷ s))
]

abbrev pub empty_cookie : Cookie
empty_cookie = record { domain = []; path = []; name = []; value = [] }

unfoldable pub set_domain : List Bytes → Option Url → Cookie → Option Cookie
unfolding find_domain
set_domain items url cookie = elim (find_domain items url) [
  | none ↦ none
  | some d ↦ some (record cookie { domain = d })
]

-- The constructor from a name and a value, and the one from a set-cookie header.
unfoldable pub name_cookie : Bytes → Bytes → Option Url → Option Cookie
unfolding set_domain
name_cookie n v url = set_domain [] url (record empty_cookie { name = n; value = v })

unfoldable pub make_cookie : Bytes → Option Url → Option Cookie
unfolding split set_content set_domain
make_cookie s url = elim (split s) [
  | [] ↦ none
  | item ∷ items ↦ set_domain items url (set_content item empty_cookie)
]

-- What `store` does where a cookie matches, by the new cookie's value.
unfoldable pub store_at : Bytes → Cookie → Cookie → List Cookie → List Cookie × Bool
store_at [] cookie c cs = (cs, true)
store_at (v ∷ vs) cookie c cs =
    if bytes_eq c.value (v ∷ vs) then (c ∷ cs, false) else (cookie ∷ cs, true)

-- The loop of `store` and what follows it: the cookies, and whether something was changed.
unfoldable pub store : Cookie → List Cookie → List Cookie × Bool
unfolding match store_at
store cookie [] = (cookie ∷ [], true)
store cookie (c ∷ cs) =
    let (rest, updated) = store cookie cs in
    if match c cookie then store_at cookie.value cookie c cs else (c ∷ rest, updated)

-- `update` with the values of the set-cookie headers.
unfoldable pub update_headers : Url → List Bytes → List Cookie → List Cookie × Bool
unfolding make_cookie store
update_headers url [] jar = (jar, false)
update_headers url (h ∷ hs) jar = elim (make_cookie h (some url)) [
  | none ↦ update_headers url hs jar
  | some cookie ↦
      let (jar', updated) = store cookie jar in
      let (jar'', more) = update_headers url hs jar' in (jar'', if updated then true else more)
]

-- `checkDomain` behind its assertion, with the domain whole or without its dot.
unfoldable pub ends_with : Bytes → Bytes → Bool
ends_with host domain =
    leb (length domain) (length host)
    && compare_equal (drop (length host - length domain) host) domain

unfoldable pub check_domain : Bytes → Bytes → Outcome Bool
unfolding ends_with
check_domain host [] = ok false
check_domain host (c ∷ d) =
    if c == 46 then ok (ends_with host (if length d == length host then d else c ∷ d)) else aborted

-- `iterate`, with the callback's captured state.
unfoldable pub iterate {ℓ} : {S : Type ℓ} → Bytes → (Cookie → S → S) → List Cookie → S → Outcome S
unfolding check_domain
iterate host callback [] s = ok s
iterate host callback (c ∷ cs) s = do
  matches ← check_domain host c.domain
  iterate host callback cs (if matches then callback c s else s)

unfoldable pub iterate_url {ℓ} : {S : Type ℓ} → Url → (Cookie → S → S) → List Cookie → S → Outcome S
unfolding iterate
iterate_url url callback jar s = if url.has_name then iterate url.host_name callback jar s else ok s

-- Sources/Web/Cookies.cpp
unfoldable pub set_cookie : Bytes → Bytes → Bytes → Bytes
set_cookie [] name value = name ++ 61 ∷ value
set_cookie (c ∷ s) name value = (c ∷ s) ++ (59 ∷ (name ++ (61 ∷ value)))

-- `get` of a URL, and of a URL and a name.
unfoldable pub get : Url → List Cookie → Outcome Bytes
unfolding iterate_url set_cookie
get url jar = iterate_url url (λ c result. set_cookie result c.name c.value) jar []

unfoldable pub get_value : Url → Bytes → List Cookie → Outcome Bytes
unfolding iterate_url
get_value url name jar =
    iterate_url url (λ c result. if bytes_eq c.name name then c.value else result) jar []

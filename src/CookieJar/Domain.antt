-- ===== src/CookieJar/Domain.antt =====
-- Which cookies go with a request, and what its cookie header says.
use mathlib.Core.Option.{some_inj, none-ne-some}
use christians_steam_framewo.Base.{
  ℕ, suc, ◌+◌, ◌-◌, ◌≤◌, Bool, true, false, List, [], ◌∷◌, ◌++◌, map, append_assoc, append-nil,
  Option, none, some, if◌then◌else◌, ◌==◌, drop, length, length-append, take-append-drop,
  drop-append, take, Bytes, bytes_eq, Outcome, ok, ◌≡◌, ◌↔◌, ◌⊎◌, refl, sym, ap, ◌∙◌, subst,
  Bool-cases, inl, inr, arith, ==_iff, List-cases, codes,
}
use christians_steam_framewo.StringCompare.{compare_equal, compare_equal_iff, lower}
use christians_steam_framewo.CookieJar.{
  Cookie, Url, with_dot, find_domain, find_item, store, match, store_at, ends_with, check_domain,
  iterate, iterate_url, set_cookie, get,
}

-- A domain as `setDomain` leaves it.
unfoldable pub Dotted : Bytes → Type 0
Dotted d = (s : Bytes) × (d ≡ 46 ∷ s)

unfoldable pub AllDotted : List Cookie → Type 0
unfolding Dotted
AllDotted [] = Unit
AllDotted (c ∷ cs) = Dotted c.domain × AllDotted cs

with_dot-Dotted : (s : Bytes) → Dotted (with_dot s)
unfolding with_dot Dotted
with_dot-Dotted [] = ([], refl)
with_dot-Dotted (c ∷ s) = elim (Bool-cases (c == 46)) [
  | inl e ↦ rw e (s, ap (λ x. x ∷ s) ((==_iff c 46).0 e))
  | inr e ↦ rw e (c ∷ s, refl)
]

length-map : (f : ℕ → ℕ) (s : Bytes) → length (map f s) ≡ length s
length-map f [] = refl
length-map f (x ∷ s) = ap suc (length-map f s)

map-append : (f : ℕ → ℕ) (s t : Bytes) → map f (s ++ t) ≡ map f s ++ map f t
map-append f [] t = refl
map-append f (x ∷ s) t = ap (◌∷◌ (f x)) (map-append f s t)

compare_equal-length : (a b : Bytes) → compare_equal a b ≡ true → length a ≡ length b
compare_equal-length a b h =
    sym (length-map lower a) ∙ ap length ((compare_equal_iff a b).0 h) ∙ length-map lower b

-- That a host ends with a domain, case aside.
unfoldable pub Ends : Bytes → Bytes → Type 0
Ends host d =
    (front : Bytes) × (back : Bytes) × (host ≡ front ++ back) × (map lower back ≡ map lower d)

gap :
    (front back d host : Bytes)
    → length back ≡ length d
    → length host ≡ length front + length back
    → length host - length d ≡ length front
gap front back d host n m = omega (arith, n, m)

ends_with_iff : (host d : Bytes) → (ends_with host d ≡ true) ↔ Ends host d
unfolding ends_with Ends
ends_with_iff host d = (
  λ h. (
    take (length host - length d) host,
    drop (length host - length d) host,
    sym (take-append-drop (length host - length d) host),
    (compare_equal_iff (drop (length host - length d) host) d).0 (ground (arith, h)),
  ),
  λ (front, back, e, same).
      let n : length back ≡ length d =
        sym (length-map lower back) ∙ ap length same ∙ length-map lower d in
      let m : length host ≡ length front + length back = ap length e ∙ length-append front back in
      let cut : drop (length host - length d) host ≡ back =
        (λ i. drop (gap front back d host n m i) (e i)) ∙ drop-append front back in
      ground (
        arith,
        subst (λ s. compare_equal s d ≡ true) (sym cut) ((compare_equal_iff back d).1 same),
        m,
        n,
      ),
)

Ends-length : (host d : Bytes) → Ends host d → length d ≤ length host
unfolding Ends
Ends-length host d (front, back, e, same) = omega (
  arith,
  ap length e,
  length-append front back,
  sym (length-map lower back) ∙ ap length same ∙ length-map lower d,
)

Ends-whole : (host d : Bytes) → map lower host ≡ map lower d → Ends host d
unfolding Ends
Ends-whole host d s = ([], host, refl, s)

Ends-same : (host d : Bytes) → length d ≡ length host → Ends host d → map lower host ≡ map lower d
unfolding Ends
Ends-same host d n ([], back, e, same) = ap (map lower) e ∙ same
Ends-same host d n (x ∷ front, back, e, same) = absurd (
    omega (
      arith,
      ap length e,
      length-append front back,
      n,
      sym (length-map lower back) ∙ ap length same ∙ length-map lower d,
    ))

-- Against a domain that starts with a dot, the assertion holds, and a host matches exactly if, case
-- aside, it is the domain without its dot or ends with the whole domain.
pub check_domain_iff :
    (host d : Bytes)
    → (b : Bool) × (check_domain host (46 ∷ d) ≡ ok b)
      × ((b ≡ true) ↔ ((map lower host ≡ map lower d) ⊎ Ends host (46 ∷ d)))
unfolding check_domain
check_domain_iff host d = elim (Bool-cases (length d == length host)) [
  | inl e ↦
      let n : length d ≡ length host = (==_iff (length d) (length host)).0 e in
      let (to, from) = ends_with_iff host d in
      rw e (
        ends_with host d,
        refl,
        (
          λ h. inl (Ends-same host d n (to h)),
          λ h. from (elim h [
            | inl s ↦ Ends-whole host d s
            | inr w ↦ absurd (omega (arith, Ends-length host (46 ∷ d) w, n))
          ]),
        ),
      )
  | inr e ↦
      let (to, from) = ends_with_iff host (46 ∷ d) in
      rw e (
        ends_with host (46 ∷ d),
        refl,
        (
          λ h. inr (to h),
          λ h. from (elim h [
            | inl s ↦ absurd (
                ground
                  (arith, e, sym (length-map lower d) ∙ sym (ap length s) ∙ length-map lower host))
            | inr w ↦ w
          ]),
        ),
      )
]

-- The cookies that go with a request to a host.
abbrev goes : Outcome Bool → Bool
goes (ok b) = b
goes _ = false

unfoldable pub sent : Bytes → List Cookie → List Cookie
sent host [] = []
sent host (c ∷ cs) =
    let rest = sent host cs in if goes (check_domain host c.domain) then c ∷ rest else rest

abbrev pub pair : Cookie → Bytes
pair c = c.name ++ 61 ∷ c.value

-- The pairs of name and value, with a semicolon before each, and with semicolons between them.
unfoldable pub preceded : List Cookie → Bytes
preceded [] = []
preceded (c ∷ cs) = (59 ∷ pair c) ++ preceded cs

unfoldable pub separated : List Cookie → Bytes
unfolding preceded
separated [] = []
separated (c ∷ cs) = pair c ++ preceded cs

iterate-preceded :
    (host : Bytes) (x : ℕ) (s : Bytes) (jar : List Cookie)
    → AllDotted jar
    → iterate host (λ c result. set_cookie result c.name c.value) jar (x ∷ s)
      ≡ ok ((x ∷ s) ++ preceded (sent host jar))
unfolding AllDotted Dotted iterate sent preceded set_cookie
iterate-preceded host x s [] d = rw append-nil
iterate-preceded host x s (c ∷ cs) ((t, e), d) =
    let (b, q, _) = check_domain_iff host t in
    let q' : check_domain host c.domain ≡ ok b = ap (check_domain host) e ∙ q in
    rw q' (elim (Bool-cases b) [
      | inl p ↦ rw p (
          iterate-preceded host x (s ++ 59 ∷ pair c) cs d
          ∙ ap ok (append_assoc (x ∷ s) (59 ∷ pair c) _))
      | inr p ↦ rw p (iterate-preceded host x s cs d)
    ])

iterate-pair :
    (host name value : Bytes) (jar : List Cookie)
    → AllDotted jar
    → iterate host (λ c result. set_cookie result c.name c.value) jar (name ++ 61 ∷ value)
      ≡ ok ((name ++ 61 ∷ value) ++ preceded (sent host jar))
iterate-pair host [] value jar d = iterate-preceded host 61 value jar d
iterate-pair host (x ∷ name) value jar d = iterate-preceded host x (name ++ 61 ∷ value) jar d

iterate-separated :
    (host : Bytes) (jar : List Cookie)
    → AllDotted jar
    → iterate host (λ c result. set_cookie result c.name c.value) jar []
      ≡ ok (separated (sent host jar))
unfolding AllDotted Dotted iterate sent separated set_cookie
iterate-separated host [] d = refl
iterate-separated host (c ∷ cs) ((t, e), d) =
    let (b, q, _) = check_domain_iff host t in
    let q' : check_domain host c.domain ≡ ok b = ap (check_domain host) e ∙ q in
    rw q' (elim (Bool-cases b) [
      | inl p ↦ rw p (iterate-pair host c.name c.value cs d)
      | inr p ↦ rw p (iterate-separated host cs d)
    ])

-- The cookie header for a URL with a host name is the pairs of name and value of the cookies whose
-- domain matches the host, in the jar's order, with semicolons between them, if each cookie's domain
-- starts with a dot: no assertion fails then.
pub get-separated :
    (url : Url) (jar : List Cookie)
    → url.has_name ≡ true
    → AllDotted jar
    → get url jar ≡ ok (separated (sent url.host_name jar))
unfolding get iterate_url
get-separated url jar h d = rw h (iterate-separated url.host_name jar d)

store_at-AllDotted :
    (value : Bytes) (cookie c : Cookie) (cs : List Cookie)
    → Dotted cookie.domain
    → Dotted c.domain
    → AllDotted cs
    → AllDotted (store_at value cookie c cs).0
unfolding store_at AllDotted
store_at-AllDotted [] cookie c cs d h ds = ds
store_at-AllDotted (v ∷ vs) cookie c cs d h ds = elim (Bool-cases (bytes_eq c.value (v ∷ vs))) [
  | inl q ↦ rw q (h, ds)
  | inr q ↦ rw q (d, ds)
]

pub store-AllDotted :
    (cookie : Cookie) (jar : List Cookie)
    → Dotted cookie.domain
    → AllDotted jar
    → AllDotted (store cookie jar).0
unfolding store AllDotted
store-AllDotted cookie [] d ds = (d, tt)
store-AllDotted cookie (c ∷ cs) d (h, ds) = elim (Bool-cases (match c cookie)) [
  | inl e ↦ rw e (store_at-AllDotted cookie.value cookie c cs d h ds)
  | inr e ↦ rw e (h, store-AllDotted cookie cs d ds)
]

host_domain-Dotted :
    (url : Option Url) (d : Bytes)
    → (elim url [ none ↦ none | some u ↦ if u.has_name then some (with_dot u.host_name) else none ])
      ≡ some d
    → Dotted d
host_domain-Dotted none d e = absurd (cc)
host_domain-Dotted (some u) d e = elim (Bool-cases u.has_name) [
  | inl h ↦ subst Dotted (some_inj.0 (rw h at e)) (with_dot-Dotted u.host_name)
  | inr h ↦ absurd (none-ne-some _ (rw h at e))
]

pub find_domain-Dotted :
    (items : List Bytes) (url : Option Url) (d : Bytes) → find_domain items url ≡ some d → Dotted d
unfolding find_domain
find_domain-Dotted items url d e = elim (List-cases (find_item items (codes "Domain"))) [
  | inl n ↦ host_domain-Dotted url d (rw (find_domain, n) at e)
  | inr (x, xs, n) ↦ subst Dotted (some_inj.0 (rw (find_domain, n) at e)) (with_dot-Dotted (x ∷ xs))
]

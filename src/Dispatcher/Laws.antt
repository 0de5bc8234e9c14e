-- ===== src/Dispatcher/Laws.antt =====
-- Which handler serves a URL.
use libstutter.Common.{
  ◌≡◌, refl, sym, ap, ◌∙◌, true, false, List, [], ◌∷◌, ◌++◌, none, some, arith, length, take, drop,
  take-append-drop, if◌then◌else◌, All, Bool-cases, inl, inr, ◌↔◌, Option-cases,
}
use mathlib.Core.Option
use libstutter.Common.Bytes.{Bytes, eq_bytes, eq_bytes→eq}
use libstutter.Dispatcher.{Dispatcher, add, matches, scan, get}

-- `route` is a prefix of `url`.
abbrev pub IsPrefix : Bytes → Bytes → Type 0
IsPrefix route url = (rest : Bytes) × (url ≡ route ++ rest)

matches-append : (route rest : Bytes) → matches route (route ++ rest) ≡ true
unfolding matches eq_bytes
matches-append [] rest = ground arith
matches-append (x ∷ route) rest = ground (arith, matches-append route rest)

matches→IsPrefix : (route url : Bytes) → matches route url ≡ true → IsPrefix route url
unfolding matches
matches→IsPrefix route url h = (
  drop (length route) url,
  prefix_of (ground (arith, eq_bytes→eq route (take (length route) url))),
)
  where
    prefix_of : route ≡ take (length route) url → url ≡ route ++ drop (length route) url
    prefix_of e =
        sym (take-append-drop (length route) url) ∙ ap (λ t. t ++ drop (length route) url) (sym e)

IsPrefix→matches : (route url : Bytes) → IsPrefix route url → matches route url ≡ true
IsPrefix→matches route url (rest, e) = rw e (matches-append route rest)

not_IsPrefix : (route url : Bytes) → matches route url ≡ false → ¬ IsPrefix route url
not_IsPrefix route url h p = cc (IsPrefix→matches route url p)

module _ {ℓ} {H : Type ℓ} where
  -- The handler of the first route that is a prefix of the URL.
  pub record IsFirst (url : Bytes) (handlers : List (Bytes × H)) (h : H) : Type ℓ where
    pub before : List (Bytes × H)
    pub route : Bytes
    pub after : List (Bytes × H)
    pub split : handlers ≡ before ++ (route, h) ∷ after
    pub prefix : IsPrefix route url
    pub skipped : All (λ r. ¬ IsPrefix r.0 url) before

  scan-IsFirst :
      (url : Bytes) (handlers : List (Bytes × H)) (h : H)
      → scan url handlers ≡ some h
      → IsFirst url handlers h
  unfolding scan
  scan-IsFirst url [] h e = cc
  scan-IsFirst url ((route, g) ∷ rest) h e = elim (Bool-cases (matches route url)) [
    | inl hit ↦ record {
      before = [];
      route = route;
      after = rest;
      split = ground arith;
      prefix = matches→IsPrefix route url hit;
      skipped = tt;
    }
    | inr miss ↦
        let later = scan-IsFirst url rest h (ground arith) in
        record {
          before = (route, g) ∷ later.before;
          route = later.route;
          after = later.after;
          split = ap (◌∷◌ (route, g)) later.split;
          prefix = later.prefix;
          skipped = (not_IsPrefix route url miss, later.skipped);
        }
  ]

  scan_first :
      (url : Bytes) (before : List (Bytes × H)) (route : Bytes) (h : H) (after : List (Bytes × H))
      → IsPrefix route url
      → All (λ r. ¬ IsPrefix r.0 url) before
      → scan url (before ++ (route, h) ∷ after) ≡ some h
  unfolding scan
  scan_first url [] route h after p s = rw (IsPrefix→matches route url p)
  scan_first url ((r, g) ∷ before) route h after p s = elim (Bool-cases (matches r url)) [
    | inl hit ↦ absurd (s.0 (matches→IsPrefix r url hit))
    | inr miss ↦ rw miss (scan_first url before route h after p s.1)
  ]

  -- A URL is served by a handler exactly when its route is the first one, in the order of
  -- registration, that is a prefix of the URL.
  pub get-eq-some_iff :
      (d : Dispatcher H) (url : Bytes) (h : H) → (get d url ≡ some h) ↔ IsFirst url d.handlers h
  unfolding get
  get-eq-some_iff d url h = (
    scan-IsFirst url d.handlers h,
    λ f. rw f.split (scan_first url f.before f.route h f.after f.prefix f.skipped),
  )

  scan-append :
      (url : Bytes) (xs : List (Bytes × H)) (route : Bytes) (h : H)
      → scan url (xs ++ (route, h) ∷ [])
        ≡ Option.get_or (Option.map some (scan url xs)) (if matches route url then some h else none)
  unfolding scan
  scan-append url [] route h = refl
  scan-append url ((r, g) ∷ xs) route h = ground (arith, scan-append url xs route h)

  -- Adding a route changes nothing for the URLs that were served before it; the others are served
  -- by the new handler if they extend its route, and by none if they do not.
  pub get-add :
      (d : Dispatcher H) (url route : Bytes) (h : H)
      → get (add d route h).0 url
        ≡ Option.get_or (Option.map some (get d url)) (if matches route url then some h else none)
  unfolding get add
  get-add d url route h = scan-append url d.handlers route h

  -- With a route "" somewhere every URL has a handler.
  pub get_total :
      (d : Dispatcher H) (url : Bytes) (h : H) → (g : H) × (get (add d [] h).0 url ≡ some g)
  get_total d url h = elim (Option-cases (get d url)) [
    | inl e ↦ (h, rw (get-add d url [] h, e, matches-append [] url))
    | inr (g, e) ↦ (g, rw (get-add d url [] h, e))
  ]

  -- The route "" serves what no route before it does.
  pub get-add_default :
      (d : Dispatcher H) (url : Bytes) (h : H)
      → get (add d [] h).0 url ≡ some (Option.get_or (get d url) h)
  get-add_default d url h = elim (Option-cases (get d url)) [
    | inl missing ↦ rw (get-add d url [] h, missing, matches-append [] url)
    | inr (g, found) ↦ rw (get-add d url [] h, found)
  ]

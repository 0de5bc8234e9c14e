-- ===== src/Query/Laws.antt =====
-- What the loop over positions computes, by the parts of the URL.
use libstutter.Common.{
  ℕ, zero, suc, ◌+◌, ◌-◌, ◌==◌, ◌≤◌, ◌<◌, ◌≡◌, refl, ap, ◌∙◌, List, [], ◌∷◌, none, some, arith,
  length, length-drop, length-take, take, drop, take-all, if◌then◌else◌, Option-cases, inl, inr,
}
use native.Mathlib.Nat.{zero-add}
use native.Mathlib.Numerals.{add-one}
use libstutter.Common.Bytes.{Bytes}
use libstutter.OrderedMap.{insert}
use libstutter.Search.{index_of, find_first_of}
use libstutter.Search.Laws.{
  split, drop-drop, take-take, drop-take, split-none, split-some, index_of-lt,
}
use libstutter.Query.{QueryString, same_text, add_pair, query_loop, extract_query_string}

-- One argument of the query string: a name and what follows its first equal sign, or a name alone.
abbrev pub add_part : Bytes → QueryString → QueryString
add_part part q = elim (index_of b'=' part) [
  | none ↦ insert same_text part [] q
  | some i ↦ if i == 0 then q else insert same_text (take i part) (drop (suc i) part) q
]

abbrev pub add_parts : List Bytes → QueryString → QueryString
add_parts [] q = q
add_parts (part ∷ parts) q = add_parts parts (add_part part q)

-- What stands behind the first question mark, between ampersands.
abbrev pub query_parts : Bytes → List Bytes
query_parts url = elim (index_of b'?' url) [ none ↦ [] | some i ↦ split b'&' (drop (suc i) url) ]

-- The value of a pair, cut out of the URL or out of the part.
value-part :
    (url : Bytes) (first n i : ℕ)
    → i < n
    → take (n - i - 1) (drop (suc first + i + 1) url) ≡ drop (suc i) (take n (drop (suc first) url))
value-part url first n i h =
    let e : suc first + i + 1 ≡ suc first + suc i = omega arith in
    let f : suc i + (n - i - 1) ≡ n = omega arith in
    rw (e, ← drop-drop (suc i) (suc first) url)
      (drop-take (suc i) (n - i - 1) (drop (suc first) url)
        ∙ ap (λ (k : ℕ). drop (suc i) (take k (drop (suc first) url))) f)

add_pair-add_part :
    (url : Bytes) (first n : ℕ) (q : QueryString)
    → add_pair url first n q ≡ add_part (take n (drop (suc first) url)) q
unfolding add_pair
add_pair-add_part url first n q =
    let s = drop (suc first) url in
    elim (Option-cases (index_of b'=' (take n s))) [
      | inl bare ↦ rw (add_pair, add-one, bare, add_part) (rw add-one)
      | inr (i, pair) ↦
          let inside : i < n = omega (arith, index_of-lt b'=' (take n s) i pair, length-take n s) in
          let cut = value-part url first n i inside in
          rw (add_pair, add-one, pair, add_part, take-take i n s (omega arith)) (rw (add-one, cut))
    ]

query_loop-none : (fuel : ℕ) (url : Bytes) (q : QueryString) → query_loop fuel url none q ≡ q
unfolding query_loop
query_loop-none zero url q = refl
query_loop-none (suc fuel) url q = refl

query_loop-add_parts :
    (fuel : ℕ) (url : Bytes) (first : ℕ) (q : QueryString)
    → first < length url
    → length url ≤ first + fuel
    → query_loop fuel url (some first) q ≡ add_parts (split b'&' (drop (suc first) url)) q
unfolding query_loop find_first_of
query_loop-add_parts zero url first q lt fits = absurd (omega arith)
query_loop-add_parts (suc fuel) url first q lt fits =
    elim (Option-cases (index_of b'&' (drop (suc first) url))) [
      | inl last ↦
          rw (add-one, last, split-none b'&' (drop (suc first) url) last)
            (query_loop-none fuel url _
              ∙ add_pair-add_part url first (length url - first - 1) q
              ∙ ap (λ part. add_part part q)
                  (take-all _ (drop (suc first) url) (omega (arith, length-drop (suc first) url))))
      | inr (i, more) ↦
          rw (add-one, more, split-some b'&' (drop (suc first) url) i more)
            (let inside = index_of-lt b'&' (drop (suc first) url) i more in
              let e : suc first + i - first - 1 ≡ i = omega arith in
              let f : suc first + suc i ≡ suc (suc first + i) = omega arith in
              rw (e, add_pair-add_part url first i q, drop-drop (suc i) (suc first) url, f)
                (query_loop-add_parts fuel url (suc first + i) _
                  (omega (arith, inside, length-drop (suc first) url)) (omega arith)))
    ]

-- The loop over positions inserts, in order, the arguments that stand between the ampersands behind
-- the first question mark; the fuel is enough for every URL.
pub extract_query_string-add_parts :
    (url : Bytes) (q : QueryString) → extract_query_string url q ≡ add_parts (query_parts url) q
unfolding extract_query_string find_first_of
extract_query_string-add_parts url q = elim (Option-cases (index_of b'?' url)) [
  | inl plain ↦ rw (plain, query_parts)
  | inr (i, asked) ↦
      rw (asked, zero-add, query_parts)
        (query_loop-add_parts (suc (length url)) url i q (index_of-lt _ url i asked) (omega arith))
]

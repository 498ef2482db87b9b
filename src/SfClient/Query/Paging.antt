-- ===== src/SfClient/Query/Paging.antt =====
-- The pages that `query` of frontend/src/lib/sf-client.ts puts together.
use Prim.Native.Nat.{zero, suc}
use min_demo.Base.{
  ℕ, ◌+◌, ◌<◌, ◌≤◌, ◌≡◌, ap, sym, ◌∙◌, true, false, String, Option, none, some, List, [], ◌∷◌, ◌++◌,
  arith, length, length-append, ltb, if◌then◌else◌, All, append_assoc, append-nil, Bool-cases, inl,
  inr, eq-nil_of_length,
}
use min_demo.SfClient.Fetch.{Attempt, fetched, sf_fetch}
use min_demo.SfClient.Query.{
  Body, found, records_of, more_url, capped_url, is_ok, max_query_records, query_loop, after_page,
  first_page, query,
}

module _ {ℓ} {R : Type ℓ} where
  unfoldable pub concat : List (List R) → List R
  concat [] = []
  concat (p ∷ ps) = p ++ concat ps

  -- The pages in order, until the limit is reached.
  pub gather : List R → List (List R) → List R
  gather acc [] = acc
  gather acc (p ∷ ps) =
      let rest = gather (acc ++ p) ps in if ltb (length acc) max_query_records then rest else acc

module _ {ℓ} {R : Type ℓ} (net : String → ℕ → Attempt (Option (Body R))) where
  -- What the CRM serves behind a page: nothing more, a page that is refused, or a page with its
  -- records and what is served behind it.
  pub data Serves : Body R → List (List R) → Type ℓ where
    last : {b : Body R} → more_url b ≡ none → Serves b []
    refused :
        {b : Body R} (url : String) (status : ℕ) (body : Option (Body R))
        → more_url b ≡ some url
        → (sf_fetch (net url)).outcome ≡ fetched status body
        → is_ok status ≡ false
        → Serves b []
    more :
        {b : Body R} {ps : List (List R)} (url : String) (status : ℕ) (next : Body R)
        → more_url b ≡ some url
        → (sf_fetch (net url)).outcome ≡ fetched status (some next)
        → is_ok status ≡ true
        → Serves next ps
        → Serves b (records_of next ∷ ps)

  capped_full :
      (acc : List R) (b : Body R)
      → ltb (length acc) max_query_records ≡ false
      → capped_url acc b ≡ none
  unfolding capped_url
  capped_full acc b e = rw e

  capped_open :
      (acc : List R) (b : Body R)
      → ltb (length acc) max_query_records ≡ true
      → capped_url acc b ≡ more_url b
  unfolding capped_url
  capped_open acc b e = rw e

  capped_last : (acc : List R) (b : Body R) → more_url b ≡ none → capped_url acc b ≡ none
  capped_last acc b e = elim (Bool-cases (ltb (length acc) max_query_records)) [
    | inl room ↦ capped_open acc b room ∙ e
    | inr full ↦ capped_full acc b full
  ]

  loop_stops :
      (fuel : ℕ) (acc : List R) (b : Body R)
      → capped_url acc b ≡ none
      → query_loop net (suc fuel) acc b ≡ some (found acc)
  unfolding query_loop
  loop_stops fuel acc b e = rw (e, query_loop)

  loop_refused :
      (fuel : ℕ) (acc : List R) (b : Body R) (url : String) (status : ℕ) (body : Option (Body R))
      → capped_url acc b ≡ some url
      → (sf_fetch (net url)).outcome ≡ fetched status body
      → is_ok status ≡ false
      → query_loop net (suc fuel) acc b ≡ some (found acc)
  unfolding query_loop after_page
  loop_refused fuel acc b url status none e answer bad =
      rw (e, query_loop) (rw (answer, after_page) (rw bad))
  loop_refused fuel acc b url status (some next) e answer bad =
      rw (e, query_loop) (rw (answer, after_page) (rw bad))

  loop_more :
      (fuel : ℕ) (acc : List R) (b next : Body R) (url : String) (status : ℕ)
      → capped_url acc b ≡ some url
      → (sf_fetch (net url)).outcome ≡ fetched status (some next)
      → is_ok status ≡ true
      → query_loop net (suc fuel) acc b ≡ query_loop net fuel (acc ++ records_of next) next
  unfolding query_loop after_page
  loop_more fuel acc b next url status e answer ok =
      rw (e, query_loop) (rw (answer, after_page) (rw ok))

  query_loop_served :
      (fuel : ℕ) (acc : List R) {b : Body R} {ps : List (List R)}
      → Serves b ps
      → length ps < fuel
      → query_loop net fuel acc b ≡ some (found (gather acc ps))
  unfolding gather
  query_loop_served zero acc s h = elim h [ ]
  query_loop_served (suc fuel) acc {b} (last none_left) h =
      loop_stops fuel acc b (capped_last acc b none_left)
  query_loop_served (suc fuel) acc {b} (refused url status body is_more answer bad) h =
      elim (Bool-cases (ltb (length acc) max_query_records)) [
        | inl room ↦
            loop_refused fuel acc b url status body (capped_open acc b room ∙ is_more) answer bad
        | inr full ↦ loop_stops fuel acc b (capped_full acc b full)
      ]
  query_loop_served (suc fuel) acc {b} (more url status next is_more answer ok rest) h =
      elim (Bool-cases (ltb (length acc) max_query_records)) [
        | inl room ↦ rw room (
            loop_more fuel acc b next url status (capped_open acc b room ∙ is_more) answer ok
            ∙ query_loop_served fuel (acc ++ records_of next) rest (omega arith))
        | inr full ↦ rw full (loop_stops fuel acc b (capped_full acc b full))
      ]

  -- Where the first page is answered, the loop ends within one round for each page that is served
  -- behind it and one more, and the result is these pages' records in order until the limit is
  -- reached. A page that the CRM refuses ends the result there, with no error.
  pub query_served :
      (fuel : ℕ) (url : String) (status : ℕ) (b : Body R) (ps : List (List R))
      → (sf_fetch (net url)).outcome ≡ fetched status (some b)
      → is_ok status ≡ true
      → Serves b ps
      → length ps < fuel
      → query net fuel url ≡ some (found (gather (records_of b) ps))
  unfolding query first_page
  query_served fuel url status b ps answer ok s h =
      rw answer (rw ok (query_loop_served fuel (records_of b) s h))

module _ {ℓ} {R : Type ℓ} where
  -- Up to the limit no record is lost and none comes twice: the result is all pages together.
  pub gather_all :
      (acc : List R) (ps : List (List R))
      → length (acc ++ concat ps) ≤ max_query_records
      → gather acc ps ≡ acc ++ concat ps
  unfolding gather concat
  gather_all acc [] h = sym (append-nil acc)
  gather_all acc (p ∷ ps) h = elim (Bool-cases (ltb (length acc) max_query_records)) [
    | inl room ↦ rw room (
        gather_all (acc ++ p) ps (rw (append_assoc acc p (concat ps)) h)
        ∙ append_assoc acc p (concat ps))
    | inr full ↦
        let empty : p ++ concat ps ≡ [] =
          eq-nil_of_length (p ++ concat ps) (ground (arith, length-append acc (p ++ concat ps))) in
        rw (full, empty) (sym (append-nil acc))
  ]

  -- With pages of at most `k` records the result is never longer than the limit and one page.
  pub length-gather :
      (acc : List R) (ps : List (List R)) (k : ℕ)
      → length acc < max_query_records + k
      → All (λ (p : List R). length p ≤ k) ps
      → length (gather acc ps) < max_query_records + k
  unfolding gather
  length-gather acc [] k h a = h
  length-gather acc (p ∷ ps) k h a = elim (Bool-cases (ltb (length acc) max_query_records)) [
    | inl room ↦
        rw room (length-gather (acc ++ p) ps k (ground (arith, length-append acc p, a.0)) a.1)
    | inr full ↦ rw full h
  ]

-- Where the first page is answered, the pages served behind it are fewer than the fuel, and all of
-- them hold no more than 10,000 records together, a query gives every record of every page, in order.
pub query_complete {ℓ} :
    {R : Type ℓ} (net : String → ℕ → Attempt (Option (Body R))) (fuel : ℕ) (url : String)
    (status : ℕ) (b : Body R) (ps : List (List R))
    → (sf_fetch (net url)).outcome ≡ fetched status (some b)
    → is_ok status ≡ true
    → Serves net b ps
    → length ps < fuel
    → length (records_of b ++ concat ps) ≤ max_query_records
    → query net fuel url ≡ some (found (records_of b ++ concat ps))
query_complete net fuel url status b ps answer ok s h room =
    query_served net fuel url status b ps answer ok s h
    ∙ ap (λ rs. some (found rs)) (gather_all (records_of b) ps room)

-- Where the first page is answered and the pages served behind it are fewer than the fuel, a query
-- over pages of at most `k` records gives a result of fewer than 10,000 + k records, however many
-- pages there are.
pub query_bounded {ℓ} :
    {R : Type ℓ} (net : String → ℕ → Attempt (Option (Body R))) (fuel : ℕ) (url : String)
    (status : ℕ) (b : Body R) (ps : List (List R)) (k : ℕ)
    → (sf_fetch (net url)).outcome ≡ fetched status (some b)
    → is_ok status ≡ true
    → Serves net b ps
    → length ps < fuel
    → length (records_of b) ≤ k
    → All (λ (p : List R). length p ≤ k) ps
    → (rs : List R) × (query net fuel url ≡ some (found rs)) × (length rs < max_query_records + k)
query_bounded net fuel url status b ps k answer ok s h first rest = (
  gather (records_of b) ps,
  query_served net fuel url status b ps answer ok s h,
  length-gather (records_of b) ps k (omega arith) rest,
)

-- ===== src/Proxy/RateLimit.antt =====
-- How often the rate limiter of frontend/src/proxy.ts lets one address through, whatever other
-- addresses do in between.
use min_demo.Base.{
  ℕ, ◌+◌, ◌-◌, ◌<◌, ◌≤◌, ◌≡◌, refl, ap, Bool, true, false, String, Option, none, some, List, [],
  ◌∷◌, arith, str_eq, str_eq_iff, if◌then◌else◌, ◌&&◌, leb, All, Bool-cases, inl, inr, ◌⊎◌,
}
use Prim.Native.Nat.{min}
use min_demo.Proxy.{
  RateEntry, RateCounts, get, put, next_entry, check_rate_limit, rate_limit_window_ms,
  rate_limit_max,
}

-- The calls of `checkRateLimit` in the order in which they are made: an address and a time.
abbrev pub Call : Type 0
Call = String × ℕ

abbrev pub one : Bool → ℕ
one true = 1
one false = 0

-- How many calls an address makes, and how many of them are let through.
pub requests : String → List Call → ℕ
requests j [] = 0
requests j (c ∷ cs) = one (str_eq c.0 j) + requests j cs

unfoldable pub allowed : String → List Call → RateCounts → ℕ
allowed j [] m = 0
allowed j (c ∷ cs) m =
    let (answer, m') = check_rate_limit c.0 c.1 m in one (str_eq c.0 j && answer) + allowed j cs m'

get-put :
    (ip j : String) (e : RateEntry) (m : RateCounts)
    → get j (put ip e m) ≡ (if str_eq ip j then some e else get j m)
unfolding get put
get-put ip j e [] = refl
get-put ip j e ((k, d) ∷ m) =
    ground (arith, str_eq_iff ip j, str_eq_iff k ip, str_eq_iff k j, get-put ip j e m)

-- What one call leaves for an address.
get-check_rate_limit :
    (ip j : String) (now : ℕ) (m : RateCounts)
    → get j (check_rate_limit ip now m).1
      ≡ (if str_eq ip j then some (next_entry now (get ip m)) else get j m)
unfolding check_rate_limit
get-check_rate_limit ip j now m = get-put ip j (next_entry now (get ip m)) m

-- The entry that a call leaves for its own address decides its answer.
pub check_rate_limit_self :
    (ip : String) (now : ℕ) (m : RateCounts)
    → (get ip (check_rate_limit ip now m).1 ≡ some (next_entry now (get ip m)))
      × ((check_rate_limit ip now m).0 ≡ leb (next_entry now (get ip m)).count rate_limit_max)
unfolding check_rate_limit
check_rate_limit_self ip now m =
    (rw (get-put ip ip (next_entry now (get ip m)) m) (rw ((str_eq_iff ip ip).1 refl)), refl)

-- A call by another address leaves the entry of `j`, and one by `j` in its window counts up.
get-check_other :
    (ip j : String) (now : ℕ) (m : RateCounts) (o : Option RateEntry)
    → str_eq ip j ≡ false
    → get j m ≡ o
    → get j (check_rate_limit ip now m).1 ≡ o
get-check_other ip j now m o other found = rw (get-check_rate_limit ip j now m) (rw other found)

check-same :
    (j : String) (now : ℕ) (m : RateCounts) (e : RateEntry)
    → get j m ≡ some e
    → now < e.reset_at
    → (get j (check_rate_limit j now m).1 ≡ some (record e { count = e.count + 1 }))
      × ((check_rate_limit j now m).0 ≡ leb (e.count + 1) rate_limit_max)
unfolding check_rate_limit
check-same j now m e found early =
    let bumped : next_entry now (some e) ≡ record e { count = e.count + 1 } =
      unfold next_entry in ground arith in
    (
      rw (get-put j j (next_entry now (get j m)) m)
          (rw ((str_eq_iff j j).1 refl) (rw found (ap some bumped))),
      rw found (ap (λ (d : RateEntry). leb d.count rate_limit_max) bumped),
    )

-- An address in a window that is still open: of its calls, whatever the others do, the first
-- `100 - count` are let through and no more.
allowed-open :
    (j : String) (cs : List Call) (m : RateCounts) (e : RateEntry)
    → get j m ≡ some e
    → All (λ (c : Call). c.1 < e.reset_at) cs
    → allowed j cs m ≡ min (requests j cs) (rate_limit_max - e.count)
unfolding allowed requests
allowed-open j [] m e found early = omega arith
allowed-open j ((ip, now) ∷ cs) m e found early = elim (Bool-cases (str_eq ip j)) [
  | inl same ↦
      let here : ip ≡ j = (str_eq_iff ip j).0 same in
      let (kept, answer) = check-same j now m e found early.0 in
      rw here (
        rw ((str_eq_iff j j).1 refl, answer)
          (ground (
            arith,
            allowed-open j cs (check_rate_limit j now m).1 (record e { count = e.count + 1 }) kept
                early.1,
          )))
  | inr other ↦ rw other (
      omega (
        arith,
        allowed-open j cs (check_rate_limit ip now m).1 e
            (get-check_other ip j now m (some e) other found) early.1,
      ))
]

-- The address has no entry at this time, or one whose window is over.
abbrev pub IsFresh : String → ℕ → RateCounts → Type 0
IsFresh j now m = (get j m ≡ none) ⊎ ((e : RateEntry) × (get j m ≡ some e) × (e.reset_at ≤ now))

next_entry-fresh :
    (j : String) (now : ℕ) (m : RateCounts)
    → IsFresh j now m
    → next_entry now (get j m) ≡ record { count = 1; reset_at = now + rate_limit_window_ms }
unfolding next_entry
next_entry-fresh j now m (inl e) = rw e
next_entry-fresh j now m (inr (d, e, over)) = rw e (ground arith)

check-fresh :
    (j : String) (now : ℕ) (m : RateCounts)
    → IsFresh j now m
    → (get j (check_rate_limit j now m).1
        ≡ some (record { count = 1; reset_at = now + rate_limit_window_ms }))
      × ((check_rate_limit j now m).0 ≡ true)
unfolding check_rate_limit
check-fresh j now m fresh = (
  rw (get-put j j (next_entry now (get j m)) m)
      (rw ((str_eq_iff j j).1 refl) (ap some (next_entry-fresh j now m fresh))),
  rw (next_entry-fresh j now m fresh) refl,
)

-- In the 60 seconds that a first call of an address opens, exactly the first 100 of its calls are
-- let through, however the calls of other addresses fall in between.
pub allowed-window :
    (j : String) (now : ℕ) (cs : List Call) (m : RateCounts)
    → IsFresh j now m
    → All (λ (c : Call). c.1 < now + rate_limit_window_ms) cs
    → allowed j ((j, now) ∷ cs) m ≡ min (1 + requests j cs) rate_limit_max
unfolding allowed
allowed-window j now cs m fresh early =
    let (kept, answer) = check-fresh j now m fresh in
    rw ((str_eq_iff j j).1 refl, answer)
      (omega (
        arith,
        allowed-open j cs (check_rate_limit j now m).1
            (record { count = 1; reset_at = now + rate_limit_window_ms }) kept early,
      ))

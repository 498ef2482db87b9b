-- ===== src/Proxy/Cleared.antt =====
-- The conditions of `proxy`, frontend/src/proxy.ts, in words of their own: the session, the origin
-- and the CSRF token that a request shows.
use min_demo.Base.{
  ◌≡◌, refl, ◌≢◌, true, false, String, Option, none, some, arith, str_eq, str_eq_iff, starts_with,
  Bool-cases, inl, inr, ◌⊎◌, ◌↔◌, present, ◌&&◌, not, ap, sym, sum_map,
}
use min_demo.Proxy.{
  Env, Request, mutation_methods, csrf_exempt, session_exempt, member, csrf_ok, same_text,
  cross_origin, has_env_creds,
}

-- A value that is there and not empty.
abbrev pub Given : Option String → String → Type 0
Given o s = (o ≡ some s) × (s ≢ "")

present-Given : (o : Option String) → present o ≡ true → (s : String) × Given o s
present-Given none h = absurd (cc)
present-Given (some s) h = (s, (refl, λ e. ground (arith, str_eq_iff s "")))

Given-present : (o : Option String) (s : String) → Given o s → present o ≡ true
Given-present none s g = absurd (cc g.0)
Given-present (some t) s g = ground (arith, str_eq_iff t "", g.0, g.1)

-- The three environment credentials.
abbrev pub HasCreds : Env → Type 0
HasCreds v =
    ((a : String) × Given v.client_id a)
    × ((b : String) × Given v.client_secret b)
    × ((c : String) × Given v.instance_url c)

-- What a request has shown when it is let through.
pub record IsCleared (v : Env) (r : Request) : Type 0 where
  pub session :
      (member r.pathname session_exempt ≡ true)
      ⊎ (((token : String) × Given r.session_cookie token) ⊎ HasCreds v)
  pub same_origin :
      ((s : String) → Given r.origin s → s ≡ r.own_origin)
      ⊎ (starts_with r.pathname "/api/salesforce/callback" ≡ true)
  pub csrf :
      (member r.http_method mutation_methods ≡ false)
      ⊎ ((member r.pathname csrf_exempt ≡ true)
          ⊎ ((token : String) × Given r.csrf_cookie token × Given r.csrf_header token))

csrf_ok_iff :
    (r : Request)
    → (csrf_ok r ≡ true)
      ↔ ((token : String) × Given r.csrf_cookie token × Given r.csrf_header token)
csrf_ok_iff r = token_iff r.csrf_cookie r.csrf_header
  where
    to :
        (a b : Option String)
        → (present a && (present b && same_text a b)) ≡ true
        → (token : String) × Given a token × Given b token
    to none b h = absurd (cc)
    to (some s) none h = absurd (ground arith)
    to (some s) (some t) h =
        let e : s ≡ t = ground (arith, str_eq_iff s t) in
        let full : s ≢ "" = λ z. ground (arith, str_eq_iff s "") in
        (s, (refl, full), (ap some (sym e), full))

    from :
        (a b : Option String)
        → ((token : String) × Given a token × Given b token)
        → (present a && (present b && same_text a b)) ≡ true
    from a b (s, ga, gb) =
        rw (Given-present a s ga, Given-present b s gb) (rw (ga.0, gb.0) ((str_eq_iff s s).1 refl))

    token_iff :
        (a b : Option String)
        → ((present a && (present b && same_text a b)) ≡ true)
          ↔ ((token : String) × Given a token × Given b token)
    token_iff a b = (to a b, from a b)

cross_origin_iff :
    (r : Request) → (cross_origin r ≡ false) ↔ ((s : String) → Given r.origin s → s ≡ r.own_origin)
cross_origin_iff r = (to r.origin, from r.origin)
  where
    to :
        (o : Option String)
        → (present o && not (same_text o (some r.own_origin))) ≡ false
        → (s : String) → Given o s
        → s ≡ r.own_origin
    to o h s (e, full) = ground (arith, e, full, str_eq_iff s "", str_eq_iff s r.own_origin)

    from :
        (o : Option String)
        → ((s : String) → Given o s → s ≡ r.own_origin)
        → (present o && not (same_text o (some r.own_origin))) ≡ false
    from none h = refl
    from (some t) h = elim (Bool-cases (str_eq t "")) [
      | inl e ↦ rw e
      | inr e ↦
          let same : t ≡ r.own_origin = h t (refl, λ z. ground (arith, str_eq_iff t "")) in
          ground (arith, str_eq_iff t r.own_origin)
    ]

has_env_creds_iff : (v : Env) → (has_env_creds v ≡ true) ↔ HasCreds v
has_env_creds_iff v = (
  λ h. (
    present-Given v.client_id (ground arith),
    present-Given v.client_secret (ground arith),
    present-Given v.instance_url (ground arith),
  ),
  λ ((a, ga), (b, gb), (c, gc)).
      rw (Given-present v.client_id a ga, Given-present v.client_secret b gb)
        (Given-present v.instance_url c gc),
)

module _ (v : Env) (r : Request) where
  abbrev pub Shown : Type 0
  Shown =
      ((member r.pathname session_exempt ≡ true)
        ⊎ ((present r.session_cookie ≡ true) ⊎ (has_env_creds v ≡ true)))
      × ((cross_origin r ≡ false) ⊎ (starts_with r.pathname "/api/salesforce/callback" ≡ true))
      × ((member r.http_method mutation_methods ≡ false)
          ⊎ ((member r.pathname csrf_exempt ≡ true) ⊎ (csrf_ok r ≡ true)))

  pub Shown-IsCleared : Shown → IsCleared v r
  Shown-IsCleared (a, b, c) = record {
    session = sum_map (λ e. e) (sum_map (present-Given r.session_cookie) (has_env_creds_iff v).0) a;
    same_origin = sum_map (cross_origin_iff r).0 (λ e. e) b;
    csrf = sum_map (λ e. e) (sum_map (λ e. e) (csrf_ok_iff r).0) c;
  }

  pub IsCleared-Shown : IsCleared v r → Shown
  IsCleared-Shown c = (
    sum_map (λ e. e)
        (sum_map
          (λ (g : (t : String) × Given r.session_cookie t). Given-present r.session_cookie g.0 g.1)
          (has_env_creds_iff v).1)
        c.session,
    sum_map (cross_origin_iff r).1 (λ e. e) c.same_origin,
    sum_map (λ e. e) (sum_map (λ e. e) (csrf_ok_iff r).1) c.csrf,
  )

-- ===== src/SfCall/Call/Growth.antt =====
-- What a call of `callSF` in frontend/src/lib/salesforce.ts adds to the module's variables: its
-- posts, its waits and its requests for a token.
use min_demo.Base.{
  ℕ, ◌+◌, ◌≤◌, ◌≡◌, refl, sym, ◌∙◌, ap, String, Bool, true, false, not, ◌&&◌, Option, none, some,
  List, [], ◌∷◌, ◌++◌, inl, inr, arith, Bool-cases, length, length-append, append_assoc, append-nil,
  All, All-append, truthy, Text, subst,
}
use min_demo.SfCall.Response.{Raw}
use min_demo.SfCall.Call.{
  CsrfReply, issued, unavailable, response, Post, Link, parsed, refresh_and_retry, get_csrf_token,
  answered, use_token, post, send, verdict, header_of, is_csrf_error,
}

-- What a stretch of a call has added: `n` posts, all under the role set at its start, at most `w`
-- milliseconds of waiting, and at most `c` requests for a token.
pub record Grew (n w c : ℕ) (a b : Link) : Type 0 where
  pub role : b.current_role ≡ a.current_role
  pub sent : List Post
  pub posts : b.posts ≡ a.posts ++ sent
  pub count : length sent ≡ n
  pub roles : All (λ (p : Post). p.role_header ≡ a.current_role) sent
  pub waited : b.waited ≤ a.waited + w
  pub requests : b.csrf_requests ≤ a.csrf_requests + c

pub widen : {n w c w' c' : ℕ} {a b : Link} → Grew n w c a b → w ≤ w' → c ≤ c' → Grew n w' c' a b
widen g h k = record {
  role = g.role;
  sent = g.sent;
  posts = g.posts;
  count = g.count;
  roles = g.roles;
  waited = omega (arith, g.waited);
  requests = omega (arith, g.requests);
}

module _ {n w c n' w' c' : ℕ} {a b d : Link} where
  pub Grew-trans : Grew n w c a b → Grew n' w' c' b d → Grew (n + n') (w + w') (c + c') a d
  Grew-trans g h = record {
    role = h.role ∙ g.role;
    sent = g.sent ++ h.sent;
    posts = h.posts ∙ (ap (λ s. s ++ h.sent) g.posts ∙ append_assoc a.posts g.sent h.sent);
    count = omega (arith, length-append g.sent h.sent, g.count, h.count);
    roles =
        All-append (λ (p : Post). p.role_header ≡ a.current_role) g.sent h.sent g.roles
          (subst (λ r. All (λ (p : Post). p.role_header ≡ r) h.sent) g.role h.roles);
    waited = omega (arith, g.waited, h.waited);
    requests = omega (arith, g.requests, h.requests);
  }

-- No post, with at most this much waiting and as many requests, under the same role.
pub quiet :
    (w c : ℕ) (a b : Link)
    → b.current_role ≡ a.current_role
    → b.posts ≡ a.posts
    → b.waited ≤ a.waited + w
    → b.csrf_requests ≤ a.csrf_requests + c
    → Grew 0 w c a b
quiet w c a b role posts waited requests = record {
  role = role;
  sent = [];
  posts = posts ∙ sym (append-nil a.posts);
  count = refl;
  roles = tt;
  waited = waited;
  requests = requests;
}

answered-Grew : (r : CsrfReply) (link : Link) → Grew 0 0 1 link (answered r link).1
answered-Grew (issued t) link =
    quiet 0 1 link (answered (issued t) link).1 refl refl (omega arith) (omega arith)
answered-Grew unavailable link =
    quiet 0 1 link (answered unavailable link).1 refl refl (omega arith) (omega arith)

used-Grew :
    (force : Bool) (o : Option String) (r : CsrfReply) (link : Link)
    → Grew 0 0 1 link (use_token force o r link).1
used-Grew force none r link = answered-Grew r link
used-Grew force (some t) r link = elim (Bool-cases (truthy t && not force)) [
  | inl e ↦ rw e (quiet 0 1 link link refl refl (omega arith) (omega arith))
  | inr e ↦ rw e (answered-Grew r link)
]

used-posts :
    (force : Bool) (o : Option String) (r : CsrfReply) (link : Link)
    → (use_token force o r link).1.posts ≡ link.posts
used-posts force none (issued t) link = refl
used-posts force none unavailable link = refl
used-posts force (some t) (issued u) link = elim (Bool-cases (truthy t && not force)) [
  | inl e ↦ rw e refl
  | inr e ↦ rw e refl
]
used-posts force (some t) unavailable link = elim (Bool-cases (truthy t && not force)) [
  | inl e ↦ rw e refl
  | inr e ↦ rw e refl
]

module _ (csrf : ℕ → CsrfReply) where
  pub token-Grew : (force : Bool) (link : Link) → Grew 0 0 1 link (get_csrf_token csrf force link).1
  unfolding get_csrf_token
  token-Grew force link = used-Grew force link.csrf_token (csrf link.csrf_requests) link

  pub token-posts :
      (force : Bool) (link : Link) → (get_csrf_token csrf force link).1.posts ≡ link.posts
  unfolding get_csrf_token
  token-posts force link = used-posts force link.csrf_token (csrf link.csrf_requests) link

  post-Grew : (token : String) (link : Link) → Grew 1 0 0 link (post token link)
  unfolding post
  post-Grew token link = record {
    role = refl;
    sent = record { csrf_header = header_of token; role_header = link.current_role } ∷ [];
    posts = refl;
    count = refl;
    roles = (refl, tt);
    waited = omega arith;
    requests = omega arith;
  }

  pub send-Grew : (link : Link) → Grew 1 0 1 link (send csrf link)
  unfolding send
  send-Grew link =
      let got = get_csrf_token csrf false link in
      Grew-trans (token-Grew false link) (post-Grew (got.0) (got.1))

-- A token that is there is used, and a forced request takes what is answered.
kept :
    (csrf : ℕ → CsrfReply) (link : Link) (t : String)
    → link.csrf_token ≡ some t
    → truthy t ≡ true
    → get_csrf_token csrf false link ≡ (t, link)
unfolding get_csrf_token
kept csrf link t e f = ap (λ o. use_token false o (csrf link.csrf_requests) link) e ∙ rw f refl

forced_token :
    (o : Option String) (r : CsrfReply) (link : Link) → use_token true o r link ≡ answered r link
forced_token none r link = refl
forced_token (some t) r link = elim (Bool-cases (truthy t)) [
  | inl e ↦ rw e refl
  | inr e ↦ rw e refl
]

pub forced :
    (csrf : ℕ → CsrfReply) (link : Link) (r : CsrfReply)
    → csrf link.csrf_requests ≡ r
    → get_csrf_token csrf true link ≡ answered r link
unfolding get_csrf_token
forced csrf link r e =
    ap (λ a. use_token true link.csrf_token a link) e ∙ forced_token link.csrf_token r link

header_kept : (t : String) → truthy t ≡ true → header_of t ≡ some t
header_kept t f = rw f refl

-- The post that a link with a token makes.
pub send_kept :
    (csrf : ℕ → CsrfReply) (link : Link) (t : String)
    → link.csrf_token ≡ some t
    → truthy t ≡ true
    → (send csrf link).posts
      ≡ link.posts ++ record { csrf_header = some t; role_header = link.current_role } ∷ []
unfolding send post
send_kept csrf link t e f =
    ap (λ got. (post (got.0) (got.1)).posts) (kept csrf link t e f)
    ∙ ap (λ h. link.posts ++ record { csrf_header = h; role_header = link.current_role } ∷ [])
        (header_kept t f)

pub verdict_csrf :
    (lower : Text → Text) (raw : Raw)
    → raw.error_code ≡ some "CSRF_ERROR"
    → verdict lower 0 (response 403 (parsed raw)) ≡ refresh_and_retry
unfolding verdict
verdict_csrf lower raw e = ground (arith, ap is_csrf_error e)

-- ===== src/SfCall/Call/Rounds.antt =====
-- How `callSF` of frontend/src/lib/salesforce.ts ends, and what it has sent by then.
use min_demo.Base.{
  ℕ, suc, ◌+◌, ◌≤◌, ◌<◌, ◌≡◌, ◌≢◌, refl, sym, ◌∙◌, ap, String, true, some, List, [], ◌∷◌, ◌++◌, inl,
  inr, arith, ◌==◌, Bool-cases, append_assoc, append-nil, truthy, Text, subst, ==_iff,
}
use min_demo.SfCall.Response.{SfResponse, Raw}
use min_demo.SfCall.Call.{
  CsrfReply, issued, Reply, response, Post, Link, parsed, Verdict, retry_after, refresh_and_retry,
  done, get_csrf_token, answered, send, verdict, backoff, call_from, call_sf,
}
use min_demo.SfCall.Call.Growth.{
  Grew, widen, Grew-trans, quiet, token-Grew, token-posts, send-Grew, forced, send_kept,
  verdict_csrf,
}
use min_demo.SfCall.Call.Verdicts.{Fits, verdict-Fits}

module _ (lower : Text → Text) (csrf : ℕ → CsrfReply) (net : ℕ → Reply) where
  -- The attempt goes on to another.
  abbrev pub GoesOn : ℕ → Type 0
  GoesOn k = (r : SfResponse) → verdict lower k (net k) ≢ done r

  -- How the calls from attempt `a` on end, with `left` more allowed after it.
  pub record Served (left a w c : ℕ) (link : Link) : Type 0 where
    pub result : SfResponse
    pub link' : Link
    pub last : ℕ
    pub posts : ℕ
    pub last_post : a + posts ≡ suc last
    pub last_le : last ≤ a + left
    pub verdict_last : verdict lower last (net last) ≡ done result
    pub earlier : (k : ℕ) → a ≤ k → k < last → GoesOn k
    pub returned : call_from lower csrf net (suc left) a link ≡ some (result, link')
    pub grew : Grew posts w c link link'
    pub after_first : List Post
    pub first_post : link'.posts ≡ (send csrf link).posts ++ after_first

  ended :
      (left a w c : ℕ) (link : Link) (r : SfResponse)
      → 1 ≤ c
      → verdict lower a (net a) ≡ done r
      → Served left a w c link
  unfolding call_from
  ended left a w c link r h e = record {
    result = r;
    link' = send csrf link;
    last = a;
    posts = 1;
    last_post = omega arith;
    last_le = omega arith;
    verdict_last = e;
    earlier = λ k h h'. absurd (omega arith);
    returned = rw e refl;
    grew = widen (send-Grew csrf link) (omega arith) h;
    after_first = [];
    first_post = sym (append-nil (send csrf link).posts);
  }

  -- Another attempt follows, from `next`.
  went_on :
      (left a w c w' c' : ℕ) (link next : Link)
      → GoesOn a
      → call_from lower csrf net (suc (suc left)) a link
        ≡ call_from lower csrf net (suc left) (a + 1) next
      → Grew 1 w c link next
      → next.posts ≡ (send csrf link).posts
      → Served left (a + 1) w' c' next
      → Served (suc left) a (w + w') (c + c') link
  went_on left a w c w' c' link next on e g q s = record {
    result = s.result;
    link' = s.link';
    last = s.last;
    posts = 1 + s.posts;
    last_post = omega (arith, s.last_post);
    last_le = omega (arith, s.last_le);
    verdict_last = s.verdict_last;
    earlier = λ k h h'. elim (Bool-cases (a == k)) [
      | inl p ↦ subst GoesOn ((==_iff a k).0 p) on
      | inr p ↦ s.earlier k (ground arith) h'
    ];
    returned = e ∙ s.returned;
    grew = Grew-trans g s.grew;
    after_first = s.grew.sent;
    first_post = s.grew.posts ∙ ap (λ ps. ps ++ s.grew.sent) q;
  }

  relax :
      {left a w c w' c' : ℕ} {link : Link}
      → Served left a w c link
      → w ≤ w'
      → c ≤ c'
      → Served left a w' c' link
  relax s h k = record {
    result = s.result;
    link' = s.link';
    last = s.last;
    posts = s.posts;
    last_post = s.last_post;
    last_le = s.last_le;
    verdict_last = s.verdict_last;
    earlier = s.earlier;
    returned = s.returned;
    grew = widen s.grew h k;
    after_first = s.after_first;
    first_post = s.first_post;
  }

  -- One attempt on top of those that may follow it.
  one_more :
      (left a w c w' c' : ℕ)
      → backoff a + w ≤ w'
      → 1 + c ≤ c'
      → (a ≡ 0 → 2 + c ≤ c')
      → ((l : Link) → Served left (a + 1) w c l)
      → (link : Link) → Served (suc left) a w' c' link
  unfolding call_from
  one_more left a w c w' c' hw hc hr rest link = by_verdict (verdict lower a (net a)) refl
    where
      fits : Fits a (verdict lower a (net a))
      fits = verdict-Fits lower a (net a)

      by_verdict : (v : Verdict) → verdict lower a (net a) ≡ v → Served (suc left) a w' c' link
      by_verdict (done r) e = ended (suc left) a w' c' link r (omega arith) e
      by_verdict (retry_after ms) e =
          let f : Fits a (retry_after ms) = subst (Fits a) e fits in
          let sent = send csrf link in
          let next : Link = record sent { waited = sent.waited + ms } in
          relax
            (went_on left a ms 1 w c link next (λ r q. cc) (rw e refl)
              (widen
                (Grew-trans (send-Grew csrf link)
                  (quiet ms 0 sent next refl refl (omega arith) (omega arith)))
                (omega arith) (omega arith))
              refl (rest next))
            (omega (arith, f.1)) (omega arith)
      by_verdict refresh_and_retry e =
          let f : Fits a refresh_and_retry = subst (Fits a) e fits in
          let sent = send csrf link in
          let next : Link = (get_csrf_token csrf true sent).1 in
          relax
            (went_on left a 0 2 w c link next (λ r q. cc) (rw e refl)
              (Grew-trans (send-Grew csrf link) (token-Grew csrf true sent))
              (token-posts csrf true sent) (rest next))
            (omega arith) (hr f)

  at_two : (link : Link) → Served 0 2 0 1 link
  at_two link = by_verdict (verdict lower 2 (net 2)) refl
    where
      fits : Fits 2 (verdict lower 2 (net 2))
      fits = verdict-Fits lower 2 (net 2)

      by_verdict : (v : Verdict) → verdict lower 2 (net 2) ≡ v → Served 0 2 0 1 link
      by_verdict (done r) e = ended 0 2 0 1 link r (omega arith) e
      by_verdict (retry_after ms) e =
          let f : Fits 2 (retry_after ms) = subst (Fits 2) e fits in absurd (omega (arith, f.0))
      by_verdict refresh_and_retry e =
          let f : Fits 2 refresh_and_retry = subst (Fits 2) e fits in absurd (omega (arith, f))

  at_one : (link : Link) → Served 1 1 1200 2 link
  at_one = one_more 0 1 0 1 1200 2 (omega arith) (omega arith) (λ h. absurd (omega arith)) at_two

  -- Every call of `callSF` returns: with the first attempt of three that neither waits nor asks for
  -- a new token, and with what that attempt comes to. By then it has made one post for each
  -- attempt up to that one, all under the role set when it began, has waited 1800 ms at most, and
  -- has asked for a token four times at most.
  pub call_sf-Served :
      (link : Link)
      → (s : Served 2 0 1800 4 link) × (call_sf lower csrf net link ≡ some (s.result, s.link'))
  unfolding call_sf
  call_sf-Served link =
      let s : Served 2 0 1800 4 link =
        one_more 1 0 1200 2 1800 4 (omega arith) (omega arith) (λ h. omega arith) at_one link in
      (s, s.returned)

  -- Where the first attempt is refused with 403 and the code CSRF_ERROR and the token route then
  -- issues a token that is not empty, the call returns, and its second post carries that token.
  pub refreshed :
      (link : Link) (raw : Raw) (t : String)
      → net 0 ≡ response 403 (parsed raw)
      → raw.error_code ≡ some "CSRF_ERROR"
      → csrf (send csrf link).csrf_requests ≡ issued t
      → truthy t ≡ true
      → (l : Link) × (r : SfResponse) × (rest : List Post) × (call_sf lower csrf net link
          ≡ some (r, l))
        × (l.posts
            ≡ (send csrf link).posts
              ++ record { csrf_header = some t; role_header = link.current_role } ∷ rest)
  unfolding call_sf call_from
  refreshed link raw t hn hc hi ht =
      let sent = send csrf link in
      let fresh : Link = (answered (issued t) sent).1 in
      let got : get_csrf_token csrf true sent ≡ answered (issued t) sent =
        forced csrf sent (issued t) hi in
      let v : verdict lower 0 (net 0) ≡ refresh_and_retry =
        ap (verdict lower 0) hn ∙ verdict_csrf lower raw hc in
      let s : Served 1 1 1200 2 fresh = at_one fresh in
      let role : sent.current_role ≡ link.current_role = (send-Grew csrf link).role in
      let second : (send csrf fresh).posts
          ≡ sent.posts ++ record { csrf_header = some t; role_header = link.current_role } ∷ [] =
        send_kept csrf fresh t refl ht
        ∙ ap (λ o. sent.posts ++ record { csrf_header = some t; role_header = o } ∷ []) role in
      (
        s.link',
        s.result,
        s.after_first,
        rw (v, got) s.returned,
        s.first_post
            ∙ (ap (λ ps. ps ++ s.after_first) second
                ∙ append_assoc sent.posts
                    (record { csrf_header = some t; role_header = link.current_role } ∷ [])
                    s.after_first),
      )

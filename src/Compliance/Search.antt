-- ===== src/Compliance/Search.antt =====
-- What the keyword search of frontend/src/lib/compliance-engine.ts finds in the records.
use min_demo.Base.{
  ◌≡◌, refl, ap, sym, ◌∙◌, ◌≢◌, Bool, true, false, ◌&&◌, ◌||◌, String, List, [], ◌∷◌, ◌++◌, map,
  Text, units, has_prefix, includes, join_space, any, ◌==◌, All, append_assoc, ==_refl, append-nil,
}
use min_demo.Compliance.{Task, all_task_text, has_task}

abbrev pub NoSpace : Text → Type 0
NoSpace s = All (λ c. (c == b' ') ≡ false) s

or_assoc : (a b c : Bool) → ((a || b) || c) ≡ (a || (b || c))
or_assoc true b c = refl
or_assoc false b c = refl

or_false : (a : Bool) → (a || false) ≡ a
or_false true = refl
or_false false = refl

or_swap : (a b c d : Bool) → ((a || b) || (c || d)) ≡ ((a || c) || (b || d))
or_swap true b c d = refl
or_swap false true true d = refl
or_swap false true false d = refl
or_swap false false c d = refl

or_right : (a : Bool) {b : Bool} → b ≡ true → (a || b) ≡ true
or_right true h = refl
or_right false h = h

includes_of_prefix : (p s : Text) → has_prefix p s ≡ true → includes p s ≡ true
includes_of_prefix p [] h = h
includes_of_prefix p (c ∷ s) h = rw h

has_prefix-space : (p s t : Text) → NoSpace p → has_prefix p (s ++ b' ' ∷ t) ≡ has_prefix p s
has_prefix-space [] s t h = refl
has_prefix-space (c ∷ p) [] t h = rw (h.0)
has_prefix-space (c ∷ p) (d ∷ s) t h = ap (λ b. (c == d) && b) (has_prefix-space p s t h.1)

-- A piece with no space lies on one side of each space.
includes-space :
    (p s t : Text) → NoSpace p → includes p (s ++ b' ' ∷ t) ≡ (includes p s || includes p t)
includes-space p [] t h = ap (λ b. b || includes p t) (has_prefix-space p [] t h)
includes-space p (d ∷ s) t h = rw (has_prefix-space p (d ∷ s) t h) (
    rw (includes-space p s t h)
      (sym (or_assoc (has_prefix p (d ∷ s)) (includes p s) (includes p t))))

any-join :
    (p : Text) (ts : List Text)
    → NoSpace p
    → p ≢ []
    → includes p (join_space ts) ≡ any (includes p) ts
any-join [] ts h k = absurd (k refl)
any-join (c ∷ p) [] h k = refl
any-join (c ∷ p) (t ∷ []) h k = sym (or_false (includes (c ∷ p) t))
any-join (c ∷ p) (t ∷ u ∷ ts) h k =
    includes-space (c ∷ p) t (join_space (u ∷ ts)) h
    ∙ ap (λ b. includes (c ∷ p) t || b) (any-join (c ∷ p) (u ∷ ts) h k)

module _ {ℓ} {A : Type ℓ} where
  any-append : (p : A → Bool) (xs ys : List A) → any p (xs ++ ys) ≡ (any p xs || any p ys)
  any-append p [] ys = refl
  any-append p (x ∷ xs) ys =
      ap (λ b. p x || b) (any-append p xs ys) ∙ sym (or_assoc (p x) (any p xs) (any p ys))

  any-or : (p q : A → Bool) (xs : List A) → (any p xs || any q xs) ≡ any (λ x. p x || q x) xs
  any-or p q [] = refl
  any-or p q (x ∷ xs) =
      or_swap (p x) (any p xs) (q x) (any q xs) ∙ ap (λ b. (p x || q x) || b) (any-or p q xs)

any-map {ℓ κ} :
    {A : Type ℓ} {B : Type κ} (p : B → Bool) (f : A → B) (xs : List A)
    → any p (map f xs) ≡ any (λ x. p (f x)) xs
any-map p f [] = refl
any-map p f (x ∷ xs) = ap (λ b. p (f x) || b) (any-map p f xs)

-- Whether a task's own subject or description holds the piece.
abbrev pub mentions : (Text → Text) → Text → Task → Bool
mentions lower p t =
    includes p (lower (units t.subject)) || includes p (lower (units t.description))

-- A keyword without a space is found exactly when the subject or the description of some task
-- holds it, upper and lower case taken alike.
pub has_task_single :
    (lower : Text → Text) (tasks : List Task) (keyword : String)
    → NoSpace (lower (units keyword))
    → lower (units keyword) ≢ []
    → has_task lower tasks keyword ≡ any (mentions lower (lower (units keyword))) tasks
unfolding has_task all_task_text
has_task_single lower tasks keyword h k =
    let p = lower (units keyword) in
    any-join p
      (map (λ t. lower (units t.subject)) tasks ++ map (λ t. lower (units t.description)) tasks) h k
    ∙ any-append (includes p) (map (λ t. lower (units t.subject)) tasks)
        (map (λ t. lower (units t.description)) tasks)
    ∙ rw
        (
          any-map (includes p) (λ t. lower (units t.subject)) tasks,
          any-map (includes p) (λ t. lower (units t.description)) tasks,
        )
        (any-or (λ t. includes p (lower (units t.subject)))
          (λ t. includes p (lower (units t.description))) tasks)

has_prefix-append : (p t : Text) → has_prefix p (p ++ t) ≡ true
has_prefix-append [] t = refl
has_prefix-append (c ∷ p) t = rw (==_refl c) (has_prefix-append p t)

includes-append : (s p t : Text) → includes p (s ++ (p ++ t)) ≡ true
includes-append [] p t = includes_of_prefix p (p ++ t) (has_prefix-append p t)
includes-append (c ∷ s) p t = or_right (has_prefix p (c ∷ (s ++ (p ++ t)))) (includes-append s p t)

rest_of : List Text → Text
rest_of [] = []
rest_of (u ∷ us) = b' ' ∷ join_space (u ∷ us)

join_space-cons : (t : Text) (ts : List Text) → join_space (t ∷ ts) ≡ t ++ rest_of ts
unfolding rest_of
join_space-cons t [] = sym (append-nil t)
join_space-cons t (u ∷ us) = refl

regroup :
    (a w₁ w₂ b r : Text)
    → (a ++ w₁) ++ b' ' ∷ ((w₂ ++ b) ++ r) ≡ a ++ ((w₁ ++ b' ' ∷ w₂) ++ (b ++ r))
regroup a w₁ w₂ b r = simp append_assoc

includes-spans :
    (a w₁ w₂ b : Text) (later : List Text)
    → includes (w₁ ++ b' ' ∷ w₂) (join_space ((a ++ w₁) ∷ (w₂ ++ b) ∷ later)) ≡ true
includes-spans a w₁ w₂ b later = rw (join_space-cons (w₂ ++ b) later) (
    rw (regroup a w₁ w₂ b (rest_of later))
      (includes-append a (w₁ ++ b' ' ∷ w₂) (b ++ rest_of later)))

-- A keyword of two words is also found where no task holds it: the first task's subject ends in
-- its first word and the next one's begins with its second.
pub has_task_spans :
    (lower : Text → Text) (t u : Task) (tasks : List Task) (keyword : String) (a w₁ w₂ b : Text)
    → lower (units keyword) ≡ w₁ ++ b' ' ∷ w₂
    → lower (units t.subject) ≡ a ++ w₁
    → lower (units u.subject) ≡ w₂ ++ b
    → has_task lower (t ∷ u ∷ tasks) keyword ≡ true
unfolding has_task all_task_text
has_task_spans lower t u tasks keyword a w₁ w₂ b k e f =
    let later =
      map (λ (v : Task). lower (units v.subject)) tasks
      ++ map (λ (v : Task). lower (units v.description)) (t ∷ u ∷ tasks) in
    ap (λ p. includes p (join_space (lower (units t.subject) ∷ lower (units u.subject) ∷ later))) k
    ∙ ap (λ s. includes (w₁ ++ b' ' ∷ w₂) (join_space (s ∷ lower (units u.subject) ∷ later))) e
    ∙ ap (λ s. includes (w₁ ++ b' ' ∷ w₂) (join_space ((a ++ w₁) ∷ s ∷ later))) f
    ∙ includes-spans a w₁ w₂ b later

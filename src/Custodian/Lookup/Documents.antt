-- ===== src/Custodian/Lookup/Documents.antt =====
-- `getRequiredDocuments` of frontend/src/lib/custodian-rules.ts.
use min_demo.Base.{
  ◌≡◌, refl, sym, ◌∙◌, String, Option, none, some, List, [], ◌∷◌, ◌++◌, map, filter, append_assoc,
  append-nil, Bool-cases, Option-cases, inl, inr,
}
use min_demo.Custodian.Rules.{ConditionalDocumentRule, DocumentRule}
use min_demo.Custodian.Lookup.{
  triggered, as_document, push_conditional, get_required_documents, get_rules_for_account_type,
}

module _ (context : String → Option String) where
  push_conditional_lem :
      (cs : List ConditionalDocumentRule) (docs : List DocumentRule)
      → push_conditional context cs docs ≡ docs ++ map as_document (filter (triggered context) cs)
  unfolding push_conditional
  push_conditional_lem [] docs = sym (append-nil docs)
  push_conditional_lem (c ∷ cs) docs = elim (Bool-cases (triggered context c)) [
    | inl e ↦ rw e (
        push_conditional_lem cs (docs ++ as_document c ∷ [])
        ∙ append_assoc docs (as_document c ∷ []) (map as_document (filter (triggered context) cs)))
    | inr e ↦ rw e (push_conditional_lem cs docs)
  ]

  -- Where the custodian has rules for the account type, the documents needed are those that it
  -- always requires and then, in the order of the rules, exactly the conditional ones whose field
  -- has the value that triggers them; where it has none, there are no documents.
  pub get_required_documents_lem :
      (id t : String)
      → get_required_documents id t context ≡ elim (get_rules_for_account_type id t) [
        | none ↦ []
        | some r ↦
            r.required_documents
            ++ map as_document (filter (triggered context) r.conditional_documents)
      ]
  unfolding get_required_documents
  get_required_documents_lem id t = elim (Option-cases (get_rules_for_account_type id t)) [
    | inl e ↦ rw (e, get_required_documents) refl
    | inr (r, e) ↦
        rw (e, get_required_documents)
          (push_conditional_lem r.conditional_documents r.required_documents)
  ]

-- ===== src/SfClient/Writing.antt =====
-- What `update` and `createContactsBatch` of frontend/src/lib/sf-client.ts write.
use min_demo.Base.{
  ℕ, ◌+◌, ◌≡◌, ◌∙◌, refl, ap, String, Bool, true, false, ◌⊎◌, inl, inr, Option, none, some, List,
  [], ◌∷◌, map, filter, if◌then◌else◌, units, ◌<>◌, length, arith, Bool-cases,
}
use min_demo.SfClient.Ids.{str, is_valid_salesforce_id, IsSalesforceId, is_valid_salesforce_id_iff}
use min_demo.SfClient.Fetch.{Attempt}
use min_demo.SfClient.Records.{
  Context, Request, Reply, Mutation, written, mutation_error, invalid, fetch_threw, not_json,
  sobjects_url, create, update, ContactInput, NamedRecord, ContactBatch, contact_name, settle,
  add_settled, create_contacts_batch,
}

-- An update either sends nothing and throws the validation error, or its id has 15 or 18 letters
-- and digits, and it sends one request, to the path that ends in that id.
pub update_guarded :
    {D : Type 0} (net : Request D → ℕ → Attempt (Option Reply)) (ctx : Context)
    (object_type id : String) (body : D)
    → (((update net ctx object_type id body).request ≡ none)
        × ((update net ctx object_type id body).outcome ≡ invalid))
      ⊎ (IsSalesforceId (str (units id))
          × ((r : Request D) × ((update net ctx object_type id body).request ≡ some r)
              × (r.url ≡ sobjects_url ctx object_type <> ("/" <> id))))
unfolding update
update_guarded net ctx object_type id body =
    elim (Bool-cases (is_valid_salesforce_id (str (units id)))) [
      | inl ok ↦ rw ok (inr ((is_valid_salesforce_id_iff (str (units id))).0 ok, (_, refl, refl)))
      | inr bad ↦ rw bad (inl (refl, refl))
    ]

abbrev pub is_written : Mutation → Bool
is_written (written id url) = true
is_written _ = false

-- What the batch sends for one contact, and how that ends.
abbrev pub contact_outcome :
    (ContactInput → ℕ → Attempt (Option Reply)) → Context → ContactInput → Mutation
contact_outcome net ctx c =
    (create (λ (r : Request ContactInput). net r.body) ctx "Contact" c true).outcome

-- Each contact has a record, under its name, or an error.
abbrev pub IsSettled : (ContactInput → Mutation) → List ContactInput → ContactBatch → Type 0
IsSettled f cs b =
    (map (λ (r : NamedRecord). r.name) b.records
      ≡ map contact_name (filter (λ c. is_written (f c)) cs))
    × (length b.records + length b.errors ≡ length cs)

names_of : ContactBatch → List String
names_of b = map (λ (r : NamedRecord). r.name) b.records

total_of : ContactBatch → ℕ
total_of b = length b.records + length b.errors

-- One more outcome is one more record with the contact's name, or one more error.
settled_one :
    (json_message : String) (c : ContactInput) (o : Mutation) (b : ContactBatch)
    → (names_of (add_settled json_message c o b)
        ≡ (if is_written o then contact_name c ∷ names_of b else names_of b))
      × (total_of (add_settled json_message c o b) ≡ total_of b + 1)
unfolding names_of total_of
settled_one json_message c (written id url) b = (refl, omega arith)
settled_one json_message c (mutation_error message status object_type) b = (refl, omega arith)
settled_one json_message c invalid b = (refl, omega arith)
settled_one json_message c (fetch_threw message) b = (refl, omega arith)
settled_one json_message c not_json b = (refl, omega arith)

written_names :
    (f : ContactInput → Mutation) (c : ContactInput) (cs : List ContactInput)
    → (if is_written (f c)
        then contact_name c ∷ map contact_name (filter (λ d. is_written (f d)) cs)
        else map contact_name (filter (λ d. is_written (f d)) cs))
      ≡ map contact_name (filter (λ d. is_written (f d)) (c ∷ cs))
written_names f c cs = elim (Bool-cases (is_written (f c))) [
  | inl e ↦ rw e refl
  | inr e ↦ rw e refl
]

settle-IsSettled :
    (json_message : String) (f : ContactInput → Mutation) (cs : List ContactInput)
    → IsSettled f cs (settle json_message cs (map f cs))
unfolding settle names_of total_of
settle-IsSettled json_message f [] = (refl, omega arith)
settle-IsSettled json_message f (c ∷ cs) =
    let rest = settle json_message cs (map f cs) in
    let (names, total) = settled_one json_message c (f c) rest in
    let (ih, count) = settle-IsSettled json_message f cs in
    (
      names
          ∙ ap (λ ns. if is_written (f c) then contact_name c ∷ ns else ns) ih
          ∙ written_names f c cs,
      omega (arith, total, count),
    )

-- The batch gives a record for exactly the contacts whose create succeeds, with their names and in
-- their order, and a record or an error for every contact.
pub create_contacts_batch-IsSettled :
    (json_message : String) (net : ContactInput → ℕ → Attempt (Option Reply)) (ctx : Context)
    (contacts : List ContactInput)
    → IsSettled
        (contact_outcome net ctx)
        contacts
        (create_contacts_batch json_message net ctx contacts)
unfolding create_contacts_batch
create_contacts_batch-IsSettled json_message net ctx contacts =
    settle-IsSettled json_message (contact_outcome net ctx) contacts

-- ===== src/Jobs/Sweeping/Orphans.antt =====
-- redis.go: what a sweep leaves in the relay's lists.
use gatew_ai.Base.{
  ◌≡◌, ◌≢◌, refl, sym, ap, subst, ◌∙◌, Bool, true, false, not, ◌||◌, Option, none, String, str_eq,
  eq_refl, ==-ne, ==-cases, List, [], ◌∷◌, ◌++◌, arith, Bool-cases, List-cases, Option-cases, inl,
  inr, if◌then◌else◌,
}
use gatew_ai.Server.{Server, present, remove_first}
use gatew_ai.Jobs.{job_key}
use gatew_ai.Jobs.Sweeping.{
  SweepCalls, sweep_key, visits, jobs_exist_batch, swept_entry, swept_entries, swept_ids,
  swept_list, swept, sweep_orphaned_relay_queue_entries,
}

abbrev pub filter {ℓ} : {A : Type ℓ} → (A → Bool) → List A → List A
filter p [] = []
filter p (x ∷ xs) = let rest = filter p xs in if p x then x ∷ rest else rest

filter-filter : {A : Type 0} → (p : A → Bool) → (xs : List A) → filter p (filter p xs) ≡ filter p xs
filter-filter p [] = refl
filter-filter p (x ∷ xs) =
    let ih = filter-filter p xs in
    elim (Bool-cases (p x)) [ inl e ↦ rw (e, e) (ap (λ r. x ∷ r) ih) | inr e ↦ rw e ih ]

filter-snoc :
    (p : String → Bool) (x : String)
    → p x ≡ true
    → (done ys : List String) → filter p (done ++ x ∷ []) ++ ys ≡ filter p done ++ x ∷ ys
filter-snoc p x h [] ys = rw h refl
filter-snoc p x h (d ∷ done) ys =
    let ih = filter-snoc p x h done ys in
    elim (Bool-cases (p d)) [ inl e ↦ rw e (ap (λ r. d ∷ r) ih) | inr e ↦ rw e ih ]

remove_first-filter :
    (p : String → Bool) (x : String)
    → p x ≡ false
    → (done ys : List String) → remove_first x (filter p done ++ x ∷ ys) ≡ filter p done ++ ys
remove_first-filter p x h [] ys = rw (eq_refl x) refl
remove_first-filter p x h (d ∷ done) ys =
    let ih = remove_first-filter p x h done ys in
    elim (Bool-cases (p d)) [
      | inr e ↦ rw e ih
      | inl e ↦ rw e (rw (==-ne d x (λ q. ground (arith, sym e ∙ ap p q ∙ h))) (ap (λ r. d ∷ r) ih))
    ]

module _ (server : Server) (calls : SweepCalls) where
  open server use {Store, view, lrem, view-lrem}

  abbrev keeping : (String → Bool) → String → String → Bool
  keeping exists key id = exists id || not (calls.removes key id)

  -- The entries that stay: those of a job with a record, and those whose removal fails.
  abbrev pub stays : Store → String → String → Bool
  stays s key id = keeping (λ i. present ((view s).text (job_key i))) key id

  -- Whether the sweep comes by a list.
  abbrev pub visited : String → List (String × String) → Bool
  visited k [] = false
  visited k ((model, state) ∷ rest) = str_eq (sweep_key model state) k || visited k rest

  text-entries :
      (key : String) (exists : String → Bool) (ids : List String) (s : Store)
      → (view (swept_entries server calls key exists ids s).1).text ≡ (view s).text
  unfolding swept_entries swept_entry
  text-entries key exists [] s = refl
  text-entries key exists (id ∷ ids) s =
      let kept = text-entries key exists ids s in
      let cut = text-entries key exists ids (lrem key id s) in
      ground (arith, kept, cut, view-lrem key id s)

  other-entries :
      (key k : String)
      → key ≢ k
      → (exists : String → Bool) (ids : List String) (s : Store)
      → (view (swept_entries server calls key exists ids s).1).list k ≡ (view s).list k
  unfolding swept_entries swept_entry
  other-entries key k h exists [] s = refl
  other-entries key k h exists (id ∷ ids) s =
      let kept = other-entries key k h exists ids s in
      let cut = other-entries key k h exists ids (lrem key id s) in
      ground (arith, kept, cut, view-lrem key id s, ==-ne key k h)

  list-entries :
      (key : String) (exists : String → Bool) (ids done : List String) (s : Store)
      → let p = keeping exists key in
        (view s).list key ≡ filter p done ++ ids
        → (view (swept_entries server calls key exists ids s).1).list key
          ≡ filter p done ++ filter p ids
  unfolding swept_entries swept_entry
  list-entries key exists [] done s h = h
  list-entries key exists (id ∷ ids) done s h =
      let p = keeping exists key in
      elim (Bool-cases (exists id)) [
        | inl e ↦
            let snoc = filter-snoc p id (rw e refl) done in
            rw e (
              list-entries key exists ids (done ++ id ∷ []) s (h ∙ sym (snoc ids))
              ∙ snoc (filter p ids))
        | inr e ↦ elim (Bool-cases (calls.removes key id)) [
          | inr f ↦
              let snoc = filter-snoc p id (rw (e, f) refl) done in
              rw (e, f)
                (list-entries key exists ids (done ++ id ∷ []) s (h ∙ sym (snoc ids))
                  ∙ snoc (filter p ids))
          | inl f ↦
              let cut = ap (λ v. v.list key) (view-lrem key id s) in
              rw (e, f)
                (list-entries key exists ids done (lrem key id s) (
                  cut
                  ∙ rw (eq_refl key) (
                      ap (remove_first id) h ∙ remove_first-filter p id (rw (e, f) refl) done ids)))
        ]
      ]

  -- One list without an error: it is filtered, and no other list or text changes.
  swept-list :
      (model state : String) (s : Store)
      → (swept_list server calls model state s).0.1 ≡ none
      → let after = (swept_list server calls model state s).1 in
        let key = sweep_key model state in
        ((view after).text ≡ (view s).text)
        × ((view after).list key ≡ filter (stays s key) ((view s).list key))
        × ((k : String) → key ≢ k → (view after).list k ≡ (view s).list k)
  unfolding swept_list swept_ids jobs_exist_batch
  swept-list model state s h =
      let key = sweep_key model state in
      let exists = jobs_exist_batch server calls s in
      elim (Bool-cases (calls.lists key)) [
        | inr e ↦ ground (arith, e, h)
        | inl e ↦ elim (List-cases ((view s).list key)) [
          | inl none_there ↦ rw (e, none_there) (refl, none_there, λ k _. refl)
          | inr (id, ids, some_there) ↦ elim (Bool-cases (calls.checks key)) [
            | inr f ↦ ground (arith, e, f, some_there, h)
            | inl f ↦
                rw (e, some_there, f)
                  (
                    text-entries key exists (id ∷ ids) s,
                    list-entries key exists (id ∷ ids) [] s some_there,
                    λ k g. other-entries key k g exists (id ∷ ids) s,
                  )
          ]
        ]
      ]

  stays-text : (k : String) (s r : Store) → (view s).text ≡ (view r).text → stays s k ≡ stays r k
  stays-text k s r p =
      ap (λ (t : String → Option String). keeping (λ i. present (t (job_key i))) k) p

  -- What is left at a key by lists that are visited.
  abbrev left_at : String → List (String × String) → Store → List String
  left_at k vs s = if visited k vs then filter (stays s k) ((view s).list k) else (view s).list k

  -- A list that is filtered twice is as one that is filtered once.
  left_at-own :
      (model state : String) (rest : List (String × String)) (s : Store)
      → (swept_list server calls model state s).0.1 ≡ none
      → let key = sweep_key model state in
        left_at key rest (swept_list server calls model state s).1
        ≡ left_at key ((model, state) ∷ rest) s
  left_at-own model state rest s h =
      let key = sweep_key model state in
      let after = (swept_list server calls model state s).1 in
      let (text, cut, others) = swept-list model state s h in
      elim (Bool-cases (visited key rest)) [
        | inl v ↦
            rw (v, eq_refl key, cut, stays-text key after s text)
              (filter-filter (stays s key) ((view s).list key))
        | inr v ↦ rw (v, eq_refl key, cut) refl
      ]

  left_at-list :
      (model state k : String) (rest : List (String × String)) (s : Store)
      → (swept_list server calls model state s).0.1 ≡ none
      → left_at k rest (swept_list server calls model state s).1
        ≡ left_at k ((model, state) ∷ rest) s
  left_at-list model state k rest s h =
      let after = (swept_list server calls model state s).1 in
      let (text, cut, others) = swept-list model state s h in
      elim (==-cases (sweep_key model state) k) [
        | inl (p, e) ↦
            subst (λ j. left_at j rest after ≡ left_at j ((model, state) ∷ rest) s) p
              (left_at-own model state rest s h)
        | inr (ne, e) ↦ rw (e, others k ne, stays-text k after s text) refl
      ]

  swept-visits :
      (vs : List (String × String)) (s : Store)
      → (swept server calls vs s).0.1 ≡ none
      → let after = (swept server calls vs s).1 in
        ((view after).text ≡ (view s).text) × ((k : String) → (view after).list k ≡ left_at k vs s)
  unfolding swept
  swept-visits [] s h = (refl, λ k. refl)
  swept-visits ((model, state) ∷ rest) s h =
      let after = (swept_list server calls model state s).1 in
      elim (Option-cases (swept_list server calls model state s).0.1) [
        | inr (e, there) ↦ ground (arith, there, h)
        | inl fine ↦
            let (text, lists) = swept-visits rest after (ground (arith, fine, h)) in
            rw (swept, fine)
              (
                text ∙ (swept-list model state s fine).0,
                λ k. lists k ∙ left_at-list model state k rest s fine,
              )
      ]

  -- A sweep that ends without an error leaves the jobs' records alone; of each list that it comes by it
  -- leaves, in their order, the entries of a job with a record and those whose removal fails; and it
  -- leaves each other list as it was.
  pub sweep-filter :
      (models : List String) (s : Store)
      → (sweep_orphaned_relay_queue_entries server calls models s).0.1 ≡ none
      → (k : String)
      → let after = (sweep_orphaned_relay_queue_entries server calls models s).1 in
        ((view after).text ≡ (view s).text)
        × ((view after).list k ≡ (
            if visited k (visits models)
            then filter (stays s k) ((view s).list k)
            else (view s).list k))
  unfolding sweep_orphaned_relay_queue_entries
  sweep-filter models s h k =
      let (text, lists) = swept-visits (visits models) s h in (text, lists k)

-- ===== src/Enricher/Reads/Landing.antt =====
-- A read that lands keeps the enricher's table sound (`done` of ievent/enricher/reads.go, and
-- `settleRead` of enricher.go as far as the table goes).
use incus_compose.Prelude.{
  ℤ, ℕ, ◌↔◌, ◌≡◌, ◌≢◌, refl, sym, ap, ◌∙◌, subst, ◌⊎◌, inl, inr, ◌==◌, ==_iff, Bool, true, false,
  Option, none, some, String, List, [], ◌∷◌, arith, str_eq, str_eq_iff, if◌then◌else◌, In,
  Bool-cases, if_split, if_both,
}
use incus_compose.Prelude.Dict.{Dict, lookup, delete}
use incus_compose.Enricher.Reads.{
  Call, Table, Kind, project_read, is_project, resource_key, held_for, is_running, flush,
  release_pending, done, decrement, current, remove_one, settle_read,
}
use incus_compose.Enricher.Reads.Keys.{resource_key_project, resource_key_kind}
use incus_compose.Enricher.Reads.Sound.{
  IsNamed, project_key, Nothing, Place, in_flight, refused, held_cold, behind, Place-map, Sound,
  IsSound, lookup-delete_cases, running-delete, held_for-delete,
}
use incus_compose.Enricher.Reads.Passing.{flush-Sound, send_pending-Sound}

-- The keys held behind a project whose own read has landed are due.
released :
    (t : Table) (project key : String) (id : ℕ)
    → Place (λ p. project ≡ p) t key id
    → Place Nothing (record t { pending_project = delete project t.pending_project }) key id
      ⊎ In key (held_for t.pending_project project)
released t project key id (in_flight h) = inl (in_flight h)
released t project key id (refused h) = inl (refused h)
released t project key id (held_cold warm inst h) = inl (held_cold warm inst h)
released t project key id (behind inst h running) =
    elim (Bool-cases (str_eq project (t.heap id).project)) [
      | inl same ↦ inr (
          subst (λ p. In key (held_for t.pending_project p))
            (sym ((str_eq_iff project (t.heap id).project).0 same)) h)
      | inr differs ↦ elim running [
        | inl runs ↦ inl (
            behind inst
              (held_for-delete project (t.heap id).project key t.pending_project differs h)
              (inl runs))
        | inr landed ↦ absurd (ground (arith, str_eq_iff project (t.heap id).project))
      ]
    ]

owed-Sound :
    (Landed : String → Type 0) (t : Table) (n : ℤ)
    → Sound Landed [] t
    → Sound Landed [] (record t { owed = n })
owed-Sound Landed t n s = record {
  keyed = s.keyed;
  named = s.named;
  placed = λ k id held. elim (s.placed k id held) [
    | inl place ↦
        inl
          (Place-map k id refl refl (λ h. h) (λ h. h) (λ warm h. (warm, h)) (λ h. h) (λ h. h) place)
    | inr none_due ↦ absurd none_due
  ];
  plain = s.plain;
}

is_it : (kind : Kind) → is_project kind ≡ true → kind ≡ project_read
is_it kind h = ground arith

module _ (takes : ℕ → Bool) where
  release_pending-Sound :
      (project : String) (t : Table)
      → Sound (λ p. project ≡ p) [] t
      → IsSound (release_pending takes project t)
  unfolding release_pending
  release_pending-Sound project t s =
      send_pending-Sound takes Nothing (held_for t.pending_project project)
        (record t { pending_project = delete project t.pending_project })
        (record {
          keyed = s.keyed;
          named = s.named;
          placed = λ key id held. elim (s.placed key id held) [
            | inl place ↦ released t project key id place
            | inr none_due ↦ absurd none_due
          ];
          plain = s.plain;
        })

  still_behind :
      (calls : Dict ℕ) (key project : String) (Landed : String → Type 0)
      → (key ≡ project_key project → Landed project)
      → is_running calls (project_key project) ≡ true
      → (is_running (delete key calls) (project_key project) ≡ true) ⊎ Landed project
  still_behind calls key project Landed here running =
      elim (Bool-cases (str_eq key (project_key project))) [
        | inl same ↦ inr (here ((str_eq_iff key (project_key project)).0 same))
        | inr differs ↦ inl (running-delete key (project_key project) calls differs running)
      ]

  -- The call of a landed read is taken out; the calls behind its project wait no longer for it.
  landed-Sound :
      (t : Table) (id : ℕ) (Landed : String → Type 0)
      → ((project : String) → (t.heap id).key ≡ project_key project → Landed project)
      → Sound Nothing ((t.heap id).key ∷ []) t
      → Sound Landed [] (record t {
        calls = delete (t.heap id).key t.calls;
        cancels = delete (t.heap id).key t.cancels;
      })
  landed-Sound t id Landed here s =
      let k0 = (t.heap id).key in
      record {
        keyed = λ k other held. s.keyed k other (lookup-delete_cases k0 k other t.calls held).1;
        named = λ k other held. s.named k other (lookup-delete_cases k0 k other t.calls held).1;
        placed = λ k other held.
            let (differs, old) = lookup-delete_cases k0 k other t.calls held in
            elim (s.placed k other old) [
              | inl place ↦ inl (
                  Place-map k other refl refl (λ h. h) (λ h. h) (λ warm h. (warm, h)) (λ h. h)
                    (λ h. elim h [
                      | inl running ↦
                          still_behind t.calls k0 (t.heap other).project Landed
                            (here (t.heap other).project) running
                      | inr none_landed ↦ absurd none_landed
                    ])
                    place)
              | inr (inl same) ↦ absurd (ground (arith, str_eq_iff k0 k))
              | inr (inr none_due) ↦ absurd none_due
            ];
        plain = s.plain;
      }

  project_named :
      (c : Call) (project : String)
      → IsNamed c
      → is_project c.kind ≡ true
      → c.key ≡ project_key project
      → c.project ≡ project
  project_named c project named kind same = resource_key_project c.project project (
      sym (λ i. resource_key (is_it c.kind kind i) c.project (named.nameless kind i))
      ∙ sym named.key_of
      ∙ same)

  pub done-Sound :
      (t : Table) (id : ℕ)
      → lookup (t.heap id).key t.calls ≡ some id
      → Sound Nothing ((t.heap id).key ∷ []) t
      → IsSound (done takes t id)
  unfolding done
  done-Sound t id current s =
      let c = t.heap id in
      let named = s.named c.key id current in
      let landed = record t { calls = delete c.key t.calls; cancels = delete c.key t.cancels } in
      let paid = record landed { owed = decrement t.owed } in
      let flushed = flush takes paid in
      if_split IsSound (is_project c.kind)
        (release_pending takes c.project (if t.asked then flushed else paid)) landed
        (λ project.
          let Landed : String → Type 0 = λ p. c.project ≡ p in
          let out =
            owed-Sound Landed landed (decrement t.owed)
              (landed-Sound t id Landed (λ p. project_named c p named project) s) in
          release_pending-Sound c.project (if t.asked then flushed else paid) (
            if_both (Sound Landed []) t.asked flushed paid (flush-Sound takes Landed paid out) out))
        (λ other.
          landed-Sound t id Nothing
            (λ p same. resource_key_kind c.kind c.project c.name p other (sym named.key_of ∙ same))
            s)

In-remove_one :
    (id other : ℕ) (xs : List ℕ) → id ≢ other → In other xs → In other (remove_one id xs)
In-remove_one id other [] differs h = h
In-remove_one id other (x ∷ xs) differs (inl same) =
    if_split (λ l. In other l) (x == id) xs (x ∷ remove_one id xs)
      (λ it. absurd (differs (sym ((==_iff x id).0 it) ∙ same))) (λ no. inl same)
In-remove_one id other (x ∷ xs) differs (inr h) =
    if_both (λ l. In other l) (x == id) xs (x ∷ remove_one id xs) h
      (inr (In-remove_one id other xs differs h))

-- With one answer taken off the pool, only its own call has lost its place.
answered-Sound :
    (t : Table) (id : ℕ) (due : List String)
    → ((key : String) → lookup key t.calls ≡ some id → In key due)
    → IsSound t
    → Sound Nothing due (record t { taken = remove_one id t.taken })
answered-Sound t id due own s = record {
  keyed = s.keyed;
  named = s.named;
  placed = λ key other held. elim (Bool-cases (id == other)) [
    | inl same ↦
        inr
          (own key (subst (λ i. lookup key t.calls ≡ some i) (sym ((==_iff id other).0 same)) held))
    | inr differs ↦ elim (s.placed key other held) [
      | inl place ↦ inl (
          Place-map key other refl refl
            (In-remove_one id other t.taken (λ same. ground (arith, ==_iff id other))) (λ h. h)
            (λ warm h. (warm, h)) (λ h. h) (λ h. h) place)
      | inr none_due ↦ absurd none_due
    ]
  ];
  plain = s.plain;
}

current_out :
    (id : ℕ) (o : Option ℕ)
    → ((elim o as (λ x. Bool) [ none ↦ false | some out ↦ out == id ]) ≡ true) ↔ (o ≡ some id)
current_out id none = (λ h. absurd cc, λ h. absurd cc)
current_out id (some out) = (λ h. ap some ((==_iff out id).0 h), λ h. (==_iff out id).1 (cc h))

-- Whatever read answers, of a call that is current or of one that is not, the table stays sound.
pub settle_read-Sound :
    (takes : ℕ → Bool) (t : Table) (id : ℕ) → IsSound t → IsSound (settle_read takes t id)
unfolding settle_read
settle_read-Sound takes t id s =
    let k = (t.heap id).key in
    let answered = record t { taken = remove_one id t.taken } in
    let out = current_out id (lookup k t.calls) in
    if_split IsSound (current t id) (done takes answered id) answered
      (λ is_current.
        done-Sound takes answered id (out.0 is_current)
          (answered-Sound t id (k ∷ []) (λ key held. inl (s.keyed key id held)) s))
      (λ stale.
        answered-Sound t id []
          (λ key held.
            let here = subst (λ j. lookup j t.calls ≡ some id) (sym (s.keyed key id held)) held in
            let both : true ≡ false = sym (out.1 here) ∙ stale in absurd (cc both))
          s)

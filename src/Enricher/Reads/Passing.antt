-- ===== src/Enricher/Reads/Passing.antt =====
-- Landing, flushing and offering again keep the enricher's table sound (`done`, `flush` and `retry` of
-- ievent/enricher/reads.go).
use incus_compose.Prelude.{
  ℕ, ◌≡◌, ◌≢◌, refl, sym, ap, ◌∙◌, subst, ◌⊎◌, inl, inr, Bool, true, false, ◌||◌, none, some,
  String, List, [], ◌∷◌, ◌++◌, arith, str_eq_iff, if◌then◌else◌, In, In-append_left, if_split,
  if_both, option_split, In-last,
}
use incus_compose.Prelude.Dict.{lookup, delete}
use incus_compose.Enricher.Reads.{
  Table, submitted, submit, offer, send, send_cold, flush, retry_from, retry, send_pending,
  above_zero,
}
use incus_compose.Enricher.Reads.Sound.{
  project_key, Place, in_flight, refused, held_cold, behind, Place-map, Sound, lookup-delete_cases,
  running-delete,
}
use incus_compose.Enricher.Reads.Sending.{sent_or_waiting-Sound}
use incus_compose.Enricher.Reads.Replacing.{send-Sound, differ_eq}

module _ (takes : ℕ → Bool) (Landed : String → Type 0) where
  -- A call that is taken out of the table, and is no read of a project.
  removed-Sound :
      (t : Table) (key : String) (due : List String)
      → ((project : String) → key ≢ project_key project)
      → Sound Landed (key ∷ due) t
      → Sound Landed due (record t { calls = delete key t.calls })
  removed-Sound t key due no_project s = record {
    keyed = λ k id held. s.keyed k id (lookup-delete_cases key k id t.calls held).1;
    named = λ k id held. s.named k id (lookup-delete_cases key k id t.calls held).1;
    placed = λ k id held.
        let (differs, old) = lookup-delete_cases key k id t.calls held in
        elim (s.placed k id old) [
          | inl place ↦ inl (
              Place-map k id refl refl (λ h. h) (λ h. h) (λ warm h. (warm, h)) (λ h. h)
                (λ h. elim h [
                  | inl running ↦
                      let other = project_key (t.heap id).project in
                      inl (
                        running-delete key other t.calls
                          (differ_eq key other (no_project (t.heap id).project)) running)
                  | inr landed ↦ inr landed
                ])
                place)
          | inr (inl same) ↦ absurd (ground (arith, str_eq_iff key k))
          | inr (inr later) ↦ inr later
        ];
    plain = s.plain;
  }

  -- A key that names no call is not due.
  skipped-Sound :
      (t : Table) (key : String) (due : List String)
      → lookup key t.calls ≡ none
      → Sound Landed (key ∷ due) t
      → Sound Landed due t
  skipped-Sound t key due absent s = record {
    keyed = s.keyed;
    named = s.named;
    placed = λ k id held. elim (s.placed k id held) [
      | inl place ↦ inl place
      | inr (inl same) ↦
          let both : none ≡ some id = sym absent ∙ ap (λ j. lookup j t.calls) same ∙ held in
          absurd (cc both)
      | inr (inr later) ↦ inr later
    ];
    plain = s.plain;
  }

  send_cold-Sound :
      (keys : List String) (t : Table)
      → ((project : String) → In (project_key project) keys → ⊥)
      → Sound Landed keys t
      → Sound Landed [] (send_cold takes keys t)
  unfolding send_cold
  send_cold-Sound [] t plain s = s
  send_cold-Sound (key ∷ keys) t plain s =
      option_split (Sound Landed []) (lookup key t.calls) (send_cold takes keys t)
        (λ id. send_cold takes keys (send takes (record t { calls = delete key t.calls }) id))
        (λ absent.
          send_cold-Sound keys t (λ project h. plain project (inr h))
            (skipped-Sound t key keys absent s))
        (λ id held.
          let out = record t { calls = delete key t.calls } in
          send_cold-Sound keys (send takes out id) (λ project h. plain project (inr h))
            (send-Sound Landed takes out id keys (s.named key id held)
              (removed-Sound t key keys (λ project same. plain project (inl same)) s)))

  -- What was held cold is due.
  warmed :
      (t : Table) (key : String) (id : ℕ)
      → Place Landed t key id
      → Place Landed (record t { asked = true; cold = []; warm = true }) key id ⊎ In key t.cold
  warmed t key id (in_flight h) = inl (in_flight h)
  warmed t key id (refused h) = inl (refused h)
  warmed t key id (held_cold warm inst h) = inr h
  warmed t key id (behind inst h running) = inl (behind inst h running)

  pub flush-Sound : (t : Table) → Sound Landed [] t → Sound Landed [] (flush takes t)
  unfolding flush
  flush-Sound t s =
      let asked = record t { asked = true } in
      let open_table = record asked { cold = []; warm = true } in
      if_both (Sound Landed []) (t.warm || above_zero t.owed) asked
        (send_cold takes t.cold open_table)
        (record {
          keyed = s.keyed;
          named = s.named;
          placed = λ key id held. elim (s.placed key id held) [
            | inl place ↦ inl (
                Place-map key id refl refl (λ h. h) (λ h. h) (λ warm h. (warm, h)) (λ h. h) (λ h. h)
                  place)
            | inr none_due ↦ absurd none_due
          ];
          plain = s.plain;
        })
        (send_cold-Sound t.cold open_table s.plain (record {
          keyed = s.keyed;
          named = s.named;
          placed = λ key id held. elim (s.placed key id held) [
            | inl place ↦ warmed t key id place
            | inr none_due ↦ absurd none_due
          ];
          plain = λ project none_left. none_left;
        }))

  pub send_pending-Sound :
      (keys : List String) (t : Table)
      → Sound Landed keys t
      → Sound Landed [] (send_pending takes keys t)
  unfolding send_pending offer
  send_pending-Sound [] t s = s
  send_pending-Sound (key ∷ keys) t s =
      option_split (Sound Landed []) (lookup key t.calls) (send_pending takes keys t)
        (λ id. send_pending takes keys (offer takes t id))
        (λ absent. send_pending-Sound keys t (skipped-Sound t key keys absent s))
        (λ id held.
          let same = s.keyed key id held in
          send_pending-Sound keys (offer takes t id) (
            sent_or_waiting-Sound Landed (takes t.offered) t id keys
              (subst (λ k. lookup k t.calls ≡ some id) (sym same) held)
              (subst (λ k. Sound Landed (k ∷ keys) t) (sym same) s)))

  -- The calls that a pass leaves waiting, when the pool has taken or refused the first.
  retried-Sound :
      (took : Bool) (t : Table) (id : ℕ) (ids : List ℕ)
      → Sound Landed [] (record t { waiting = id ∷ ids })
      → Sound Landed [] (record (submitted took t id) { waiting = if took then ids else id ∷ ids })
  unfolding submitted
  retried-Sound true t id ids s = record {
    keyed = s.keyed;
    named = s.named;
    placed = λ key other held. elim (s.placed key other held) [
      | inl (in_flight h) ↦ inl (in_flight (In-append_left other t.taken (id ∷ []) h))
      | inl (refused (inl same)) ↦
          inl (in_flight (subst (λ i. In i (t.taken ++ id ∷ [])) same (In-last id t.taken)))
      | inl (refused (inr h)) ↦ inl (refused h)
      | inl (held_cold warm inst h) ↦ inl (held_cold warm inst h)
      | inl (behind inst h running) ↦ inl (behind inst h running)
      | inr none_due ↦ absurd none_due
    ];
    plain = s.plain;
  }
  retried-Sound false t id ids s = record {
    keyed = s.keyed;
    named = s.named;
    placed = λ key other held. elim (s.placed key other held) [
      | inl place ↦ inl (
          Place-map key other refl refl (λ h. h) (λ h. h) (λ warm h. (warm, h)) (λ h. h) (λ h. h)
            place)
      | inr none_due ↦ absurd none_due
    ];
    plain = s.plain;
  }

  retry_from-Sound :
      (ids : List ℕ) (t : Table)
      → Sound Landed [] (record t { waiting = ids })
      → Sound Landed [] (retry_from takes ids t)
  unfolding retry_from submit
  retry_from-Sound [] t s = s
  retry_from-Sound (id ∷ ids) t s =
      let took = takes t.offered in
      let sent = submitted took t id in
      let after = retried-Sound took t id ids s in
      let left : Bool → Table = λ b. record sent { waiting = if b then ids else id ∷ ids } in
      if_split (Sound Landed []) took (retry_from takes ids sent)
        (record sent { waiting = id ∷ ids })
        (λ yes. retry_from-Sound ids sent (subst (λ b. Sound Landed [] (left b)) yes after))
        (λ no. subst (λ b. Sound Landed [] (left b)) no after)

  pub retry-Sound : (t : Table) → Sound Landed [] t → Sound Landed [] (retry takes t)
  unfolding retry
  retry-Sound t s = retry_from-Sound t.waiting t s

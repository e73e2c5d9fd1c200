-- ===== src/Enricher/Reads/Sending.antt =====
-- Sending a read keeps the enricher's table sound (`submit` and the end of `send` of
-- ievent/enricher/reads.go).
use incus_compose.Prelude.{
  ℕ, ◌≡◌, refl, sym, ap, ◌∙◌, subst, inl, inr, Bool, true, false, not, ◌&&◌, some, String, List, [],
  ◌∷◌, ◌++◌, arith, str_eq, str_eq_iff, if◌then◌else◌, In, In-append_left, In-append_cases, In-last,
  Bool-cases, if_split,
}
use incus_compose.Prelude.Dict.{lookup, insert}
use incus_compose.Enricher.Reads.{
  Call, Table, Kind, is_instance, is_project, held_for, is_running, submitted, sent_or_waiting,
  offer, entered, dispatch,
}
use incus_compose.Enricher.Reads.Keys.{resource_key_kind}
use incus_compose.Enricher.Reads.Sound.{
  IsNamed, project_key, Place, in_flight, refused, held_cold, behind, Place-map, Sound,
  lookup-insert_same, lookup-insert_cases, running-insert, held_for-append, held_for-insert,
}

module _ (Landed : String → Type 0) where
  -- The call that is offered is in flight or waits.
  sent_or_waiting-self :
      (took : Bool) (t : Table) (id : ℕ)
      → Place Landed (sent_or_waiting took t id) (t.heap id).key id
  unfolding sent_or_waiting submitted
  sent_or_waiting-self true t id = in_flight (In-last id t.taken)
  sent_or_waiting-self false t id = refused (In-last id t.waiting)

  sent_or_waiting-keeps :
      (took : Bool) (t : Table) (id : ℕ)
      → ((sent_or_waiting took t id).heap ≡ t.heap)
        × ((sent_or_waiting took t id).calls ≡ t.calls)
        × ((sent_or_waiting took t id).cold ≡ t.cold)
  unfolding sent_or_waiting submitted
  sent_or_waiting-keeps true t id = (refl, refl, refl)
  sent_or_waiting-keeps false t id = (refl, refl, refl)

  -- The others stay where they are.
  sent_or_waiting-other :
      (took : Bool) (t : Table) (id : ℕ) (key : String) (other : ℕ)
      → str_eq (t.heap id).key key ≡ false
      → Place Landed t key other
      → Place Landed (sent_or_waiting took t id) key other
  unfolding sent_or_waiting submitted
  sent_or_waiting-other true t id key other differs =
      Place-map key other refl refl (λ h. In-append_left other t.taken (id ∷ []) h) (λ h. h)
        (λ warm h. (warm, h)) (λ h. h) (λ h. h)
  sent_or_waiting-other false t id key other differs =
      Place-map key other refl refl (λ h. h) (λ h. In-append_left other t.waiting (id ∷ []) h)
        (λ warm h. (warm, h)) (λ h. h) (λ h. h)

  -- A call whose place was still open has found one, and the others have kept theirs.
  closed-Sound :
      (t t' : Table) (id : ℕ) (due : List String)
      → t'.heap ≡ t.heap
      → t'.calls ≡ t.calls
      → ((project : String) → In (project_key project) t'.cold → ⊥)
      → lookup (t.heap id).key t.calls ≡ some id
      → Place Landed t' (t.heap id).key id
      → ((key : String) (other : ℕ)
          → str_eq (t.heap id).key key ≡ false
          → Place Landed t key other
          → Place Landed t' key other)
      → Sound Landed ((t.heap id).key ∷ due) t
      → Sound Landed due t'
  closed-Sound t t' id due heap calls plain here self others s =
      let k = (t.heap id).key in
      let old : (key : String) (other : ℕ)
          → lookup key t'.calls ≡ some other
          → lookup key t.calls ≡ some other =
        λ key other held. subst (λ m. lookup key m ≡ some other) calls held in
      record {
        keyed = λ key other held.
            subst (λ h. (h other).key ≡ key) (sym heap) (s.keyed key other (old key other held));
        named = λ key other held.
            subst (λ h. IsNamed (h other)) (sym heap) (s.named key other (old key other held));
        placed = λ key other held. elim (Bool-cases (str_eq k key)) [
          | inl same ↦
              let one = (str_eq_iff k key).0 same in
              let both : some id ≡ some other =
                sym here ∙ ap (λ j. lookup j t.calls) one ∙ old key other held in
              inl (
                subst (λ j. Place Landed t' j other) one
                  (subst (λ i. Place Landed t' k i) (cc both) self))
          | inr differs ↦ elim (s.placed key other (old key other held)) [
            | inl place ↦ inl (others key other differs place)
            | inr (inl same) ↦ absurd (ground (arith, str_eq_iff k key))
            | inr (inr later) ↦ inr later
          ]
        ];
        plain = plain;
      }

  pub sent_or_waiting-Sound :
      (took : Bool) (t : Table) (id : ℕ) (due : List String)
      → lookup (t.heap id).key t.calls ≡ some id
      → Sound Landed ((t.heap id).key ∷ due) t
      → Sound Landed due (sent_or_waiting took t id)
  sent_or_waiting-Sound took t id due here s =
      let same = sent_or_waiting-keeps took t id in
      closed-Sound t (sent_or_waiting took t id) id due same.0 same.1
        (λ project h. s.plain project (subst (λ l. In (project_key project) l) same.2 h)) here
        (sent_or_waiting-self took t id) (sent_or_waiting-other took t id) s

  -- Putting a call in the table, with its place still open.
  entered-Sound :
      (t : Table) (id : ℕ) (due : List String)
      → IsNamed (t.heap id)
      → Sound Landed ((t.heap id).key ∷ due) t
      → Sound Landed ((t.heap id).key ∷ due) (entered t id)
  unfolding entered
  entered-Sound t id due named s =
      let k = (t.heap id).key in
      record {
        keyed = λ key other held. elim (lookup-insert_cases k key id other t.calls held) [
          | inl this ↦ subst (λ i. (t.heap i).key ≡ key) this.1 this.0
          | inr old ↦ s.keyed key other old.1
        ];
        named = λ key other held. elim (lookup-insert_cases k key id other t.calls held) [
          | inl this ↦ subst (λ i. IsNamed (t.heap i)) this.1 named
          | inr old ↦ s.named key other old.1
        ];
        placed = λ key other held. elim (lookup-insert_cases k key id other t.calls held) [
          | inl this ↦ inr (inl this.0)
          | inr old ↦ elim (s.placed key other old.1) [
            | inl place ↦ inl (
                Place-map key other refl refl (λ h. h) (λ h. h) (λ warm h. (warm, h)) (λ h. h)
                  (λ h. elim h [
                    | inl running ↦
                        inl
                          (running-insert k (project_key (t.heap other).project) id t.calls running)
                    | inr landed ↦ inr landed
                  ])
                  place)
            | inr later ↦ inr later
          ]
        ];
        plain = s.plain;
      }

instance_not_project : (kind : Kind) → is_instance kind ≡ true → is_project kind ≡ false
instance_not_project kind h = ground arith

-- The key of an instance is not that of a project.
pub instance_key :
    (c : Call) (project : String)
    → IsNamed c
    → is_instance c.kind ≡ true
    → c.key ≡ project_key project
    → ⊥
instance_key c project named inst same =
    resource_key_kind c.kind c.project c.name project (instance_not_project c.kind inst)
      (sym named.key_of ∙ same)

pub both_true : (a b : Bool) → a && b ≡ true → (a ≡ true) × (b ≡ true)
both_true a b h = ground arith

is_false : (b : Bool) → not b ≡ true → b ≡ false
is_false b h = ground arith

module _ (takes : ℕ → Bool) (Landed : String → Type 0) where
  pub dispatch-Sound :
      (t : Table) (id : ℕ) (due : List String)
      → IsNamed (t.heap id)
      → Sound Landed ((t.heap id).key ∷ due) t
      → Sound Landed due (dispatch takes t id)
  unfolding dispatch offer entered
  dispatch-Sound t id due named s =
      let c = t.heap id in
      let k = c.key in
      let held = entered t id in
      let open_place = entered-Sound Landed t id due named s in
      let here = lookup-insert_same k id t.calls in
      let first = is_running held.calls (project_key c.project) in
      let cooled = record held { cold = t.cold ++ k ∷ [] } in
      let longer = held_for t.pending_project c.project ++ k ∷ [] in
      let behind_it = record held { pending_project = insert c.project longer t.pending_project } in
      let sent = offer takes held id in
      if_split (Sound Landed due) (not t.warm && is_instance c.kind) cooled
        (if is_instance c.kind && first then behind_it else sent)
        (λ wait.
          let both = both_true (not t.warm) (is_instance c.kind) wait in
          closed-Sound Landed held cooled id due refl refl
            (λ project h. elim (In-append_cases (project_key project) t.cold (k ∷ []) h) [
              | inl old ↦ s.plain project old
              | inr (inl this) ↦ instance_key c project named both.1 this
              | inr (inr none_left) ↦ none_left
            ])
            here (held_cold (is_false t.warm both.0) both.1 (In-last k t.cold))
            (λ key other differs place.
              Place-map key other refl refl (λ h. h) (λ h. h)
                (λ warm h. (warm, In-append_left key t.cold (k ∷ []) h)) (λ h. h) (λ h. h) place)
            open_place)
        (λ go.
          if_split (Sound Landed due) (is_instance c.kind && first) behind_it sent
            (λ wait.
              let both = both_true (is_instance c.kind) first wait in
              closed-Sound Landed held behind_it id due refl refl s.plain here
                (behind both.0
                  (held_for-insert c.project longer k t.pending_project
                    (In-last k (held_for t.pending_project c.project)))
                  (inl both.1))
                (λ key other differs place.
                  Place-map key other refl refl (λ h. h) (λ h. h) (λ warm h. (warm, h))
                    (λ h.
                      held_for-append c.project (t.heap other).project k key t.pending_project h)
                    (λ h. h) place)
                open_place)
            (λ clear.
              sent_or_waiting-Sound Landed (takes held.offered) held id due here open_place))

-- ===== src/Enricher/Reads/Replacing.antt =====
-- Joining a read and replacing one keep the enricher's table sound (`join`, `cancel` and `send` of
-- ievent/enricher/reads.go).
use incus_compose.Prelude.{
  ℕ, ◌≡◌, ◌≢◌, refl, sym, ap, ◌∙◌, subst, inl, inr, Bool, true, false, not, ◌&&◌, ◌==◌, ==_iff,
  Option, none, some, String, List, ◌∷◌, arith, str_eq, str_eq_iff, if◌then◌else◌, In,
  In-delete_func, In-of_delete_func, delete_func, if_split, if_both,
}
use incus_compose.Prelude.Dict.{lookup, insert}
use incus_compose.Enricher.Reads.{
  Call, Table, is_instance, is_project, resource_key, held_for, put, join, cancel, take_over,
  dispatch, send,
}
use incus_compose.Enricher.Reads.Sound.{
  IsNamed, project_key, Place-map, Sound, lookup-delete_cases, running-delete, held_for-put,
}
use incus_compose.Enricher.Reads.Sending.{dispatch-Sound, instance_key}

-- Two calls that name the same thing.
pub record Alike (c d : Call) : Type 0 where
  pub key : c.key ≡ d.key
  pub project : c.project ≡ d.project
  pub name : c.name ≡ d.name
  pub kind : c.kind ≡ d.kind

Alike-IsNamed : (c d : Call) → Alike c d → IsNamed d → IsNamed c
Alike-IsNamed c d a named = record {
  key_of = a.key ∙ named.key_of ∙ sym (λ i. resource_key (a.kind i) (a.project i) (a.name i));
  nameless = λ h. a.name ∙ named.nameless (sym (ap is_project a.kind) ∙ h);
}

pub put-Alike :
    (heap : ℕ → Call) (id : ℕ) (c : Call)
    → Alike c (heap id)
    → (i : ℕ) → Alike (put heap id c i) (heap i)
put-Alike heap id c a i =
    if_split (λ x. Alike x (heap i)) (i == id) c (heap i)
      (λ same. subst (λ j. Alike c (heap j)) (sym ((==_iff i id).0 same)) a)
      (λ other. record { key = refl; project = refl; name = refl; kind = refl })

join-Alike : (c d : Call) → Alike (join c d) c
unfolding join
join-Alike c d = record { key = refl; project = refl; name = refl; kind = refl }

take_over-Alike : (c d : Call) → Alike (take_over c d) c
unfolding take_over
take_over-Alike c d = record { key = refl; project = refl; name = refl; kind = refl }

pub differ_eq : (a b : String) → a ≢ b → str_eq a b ≡ false
differ_eq a b h = ground (arith, str_eq_iff a b)

str_ne : (a b : String) → str_eq a b ≡ false → str_eq b a ≡ false
str_ne a b h = ground (arith, str_eq_iff a b, str_eq_iff b a)

module _ (Landed : String → Type 0) where
  -- The heap may change in what is not a call's name.
  pub heap-Sound :
      (t : Table) (heap : ℕ → Call) (due : List String)
      → ((key : String) (i : ℕ) → lookup key t.calls ≡ some i → Alike (heap i) (t.heap i))
      → Sound Landed due t
      → Sound Landed due (record t { heap = heap })
  heap-Sound t heap due alike s = record {
    keyed = λ key id held. (alike key id held).key ∙ s.keyed key id held;
    named = λ key id held.
        Alike-IsNamed (heap id) (t.heap id) (alike key id held) (s.named key id held);
    placed = λ key id held. elim (s.placed key id held) [
      | inl place ↦ inl (
          Place-map key id (alike key id held).project (alike key id held).kind (λ h. h) (λ h. h)
            (λ warm h. (warm, h)) (λ h. h) (λ h. h) place)
      | inr later ↦ inr later
    ];
    plain = s.plain;
  }

  cancel-Sound :
      (t : Table) (key : String) (out : ℕ) (due : List String)
      → ((project : String) → key ≢ project_key project)
      → Sound Landed due t
      → Sound Landed due (cancel t key out)
  unfolding cancel
  cancel-Sound t key out due no_project s =
      let c = t.heap out in
      let kept = delete_func (λ k. str_eq k key) (held_for t.pending_project c.project) in
      record {
        keyed = λ k id held. s.keyed k id (lookup-delete_cases key k id t.calls held).1;
        named = λ k id held. s.named k id (lookup-delete_cases key k id t.calls held).1;
        placed = λ k id held.
            let (differs, old) = lookup-delete_cases key k id t.calls held in
            let flip = str_ne key k differs in
            let stays = In-delete_func (λ j. str_eq j key) k in
            elim (s.placed k id old) [
              | inl place ↦ inl (
                  Place-map k id refl refl (λ h. h)
                    (In-delete_func (λ w. str_eq (t.heap w).key key) id t.waiting
                      (ap (λ j. str_eq j key) (s.keyed k id old) ∙ flip))
                    (λ warm h. (warm, stays t.cold flip h))
                    (λ h.
                      if_both (λ m. In k (held_for m (t.heap id).project)) (is_instance c.kind)
                        (insert c.project kept t.pending_project) t.pending_project
                        (held_for-put c.project (t.heap id).project k kept t.pending_project
                          (stays (held_for t.pending_project c.project) flip) h)
                        h)
                    (λ h. elim h [
                      | inl running ↦
                          let other = project_key (t.heap id).project in
                          inl (
                            running-delete key other t.calls
                              (differ_eq key other (no_project (t.heap id).project)) running)
                      | inr landed ↦ inr landed
                    ])
                    place)
              | inr later ↦ inr later
            ];
        plain = λ project h.
            s.plain project (In-of_delete_func (λ k. str_eq k key) (project_key project) t.cold h);
      }

  weaken :
      (t : Table) (key : String) (due : List String)
      → Sound Landed due t
      → Sound Landed (key ∷ due) t
  weaken t key due s = record {
    keyed = s.keyed;
    named = s.named;
    placed = λ k id held. elim (s.placed k id held) [
      | inl place ↦ inl place
      | inr later ↦ inr (inr later)
    ];
    plain = s.plain;
  }

  replaced-Sound :
      (takes : ℕ → Bool) (t : Table) (id out : ℕ) (due : List String)
      → IsNamed (t.heap id)
      → is_instance (t.heap id).kind ≡ true
      → Sound Landed due t
      → Sound Landed due (
          dispatch takes
            (record (cancel t (t.heap id).key out) {
              heap = put t.heap id (take_over (t.heap id) (t.heap out));
            })
            id)
  unfolding cancel
  replaced-Sound takes t id out due named inst s =
      let c = t.heap id in
      let heap = put t.heap id (take_over c (t.heap out)) in
      let alike = put-Alike t.heap id (take_over c (t.heap out)) (take_over-Alike c (t.heap out)) in
      let t' = record (cancel t c.key out) { heap = heap } in
      dispatch-Sound takes Landed t' id due (Alike-IsNamed (heap id) c (alike id) named) (
        weaken t' (heap id).key due (
          heap-Sound (cancel t c.key out) heap due (λ key i held. alike i)
            (cancel-Sound t c.key out due (λ project same. instance_key c project named inst same)
              s)))

  send_cases :
      (takes : ℕ → Bool) (t : Table) (id : ℕ) (due : List String) (running : Option ℕ)
      → IsNamed (t.heap id)
      → Sound Landed due t
      → Sound Landed due (elim running as (λ o. Table) [
        | none ↦ dispatch takes t id
        | some out ↦
            let c = t.heap id in
            let o = t.heap out in
            if is_instance c.kind && c.wait_for_running && not o.wait_for_running
            then dispatch takes
                (record (cancel t c.key out) { heap = put t.heap id (take_over c o) })
                id
            else record t { heap = put t.heap out (join o c) }
      ])
  send_cases takes t id due none named s =
      dispatch-Sound takes Landed t id due named (weaken t (t.heap id).key due s)
  send_cases takes t id due (some out) named s =
      let c = t.heap id in
      let o = t.heap out in
      if_split (Sound Landed due)
        (is_instance c.kind && c.wait_for_running && not o.wait_for_running)
        (dispatch takes (record (cancel t c.key out) { heap = put t.heap id (take_over c o) }) id)
        (record t { heap = put t.heap out (join o c) })
        (λ replace. replaced-Sound takes t id out due named (ground arith) s)
        (λ joined.
          heap-Sound t (put t.heap out (join o c)) due
            (λ key i held. put-Alike t.heap out (join o c) (join-Alike o c) i) s)

  pub send-Sound :
      (takes : ℕ → Bool) (t : Table) (id : ℕ) (due : List String)
      → IsNamed (t.heap id)
      → Sound Landed due t
      → Sound Landed due (send takes t id)
  unfolding send
  send-Sound takes t id due named s =
      let c = t.heap id in send_cases takes t id due (lookup c.key t.calls) named s

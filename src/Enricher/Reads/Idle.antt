-- ===== src/Enricher/Reads/Idle.antt =====
-- No read is lost: the runs of the enricher's table (ievent/enricher/reads.go), and what they leave
-- once the pool has answered all it took.
use incus_compose.Prelude.{
  ℕ, ◌≡◌, ◌≢◌, refl, sym, ap, ◌∙◌, subst, inl, inr, Bool, true, false, none, some, String, [], In,
  ==_iff, Option-cases, if◌then◌else◌, ◌==◌, if_split,
}
use incus_compose.Prelude.Dict.{Dict, lookup}
use incus_compose.Enricher.Reads.{
  Call, Table, is_instance, is_running, put, new_deferred, send, flush, retry, settle_read,
}
use incus_compose.Enricher.Reads.Sound.{
  IsNamed, project_key, Nothing, Place, in_flight, refused, held_cold, behind, IsSound,
}
use incus_compose.Enricher.Reads.Sending.{instance_key}
use incus_compose.Enricher.Reads.Replacing.{heap-Sound, send-Sound, Alike}
use incus_compose.Enricher.Reads.Passing.{flush-Sound, retry-Sound}
use incus_compose.Enricher.Reads.Landing.{settle_read-Sound}

module _ (takes : ℕ → Bool) where
  -- What the goroutine of Run does with the table: it sends a call that it has just made, flushes at
  -- the end of a run over the fleet, offers again when the timer fires, and takes a result.
  pub data Step (t : Table) : Table → Type 0 where
    sends :
        (id : ℕ) (c : Call)
        → IsNamed c
        → ((key : String) → lookup key t.calls ≢ some id)
        → Step t (send takes (record t { heap = put t.heap id c }) id)
    flushes : Step t (flush takes t)
    retries : Step t (retry takes t)
    settles : (id : ℕ) → In id t.taken → Step t (settle_read takes t id)

  pub data Reach (heap : ℕ → Call) : Table → Type 0 where
    start : Reach heap (new_deferred heap)
    next : {t t' : Table} → Reach heap t → Step t t' → Reach heap t'

  new_deferred-Sound : (heap : ℕ → Call) → IsSound (new_deferred heap)
  unfolding lookup
  new_deferred-Sound heap = record {
    keyed = λ key id held. absurd cc;
    named = λ key id held. absurd cc;
    placed = λ key id held. absurd cc;
    plain = λ project h. h;
  }

  put_same : (heap : ℕ → Call) (id : ℕ) (c : Call) → put heap id c id ≡ c
  put_same heap id c = ap (λ b. if b then c else heap id) ((==_iff id id).1 refl)

  Step-Sound : (t t' : Table) → Step t t' → IsSound t → IsSound t'
  Step-Sound t t' (sends id c named fresh) s =
      let heap = put t.heap id c in
      let t1 = record t { heap = heap } in
      send-Sound Nothing takes t1 id [] (subst IsNamed (sym (put_same t.heap id c)) named) (
        heap-Sound Nothing t heap []
          (λ key i held.
            if_split (λ x. Alike x (t.heap i)) (i == id) c (t.heap i)
              (λ same.
                absurd (
                  fresh key (subst (λ j. lookup key t.calls ≡ some j) ((==_iff i id).0 same) held)))
              (λ other. record { key = refl; project = refl; name = refl; kind = refl }))
          s)
  Step-Sound t t' flushes s = flush-Sound takes Nothing t s
  Step-Sound t t' retries s = retry-Sound takes Nothing t s
  Step-Sound t t' (settles id held) s = settle_read-Sound takes t id s

  pub reachable-Sound : (heap : ℕ → Call) (t : Table) → Reach heap t → IsSound t
  reachable-Sound heap t start = new_deferred-Sound heap
  reachable-Sound heap t (next run step) = Step-Sound _ t step (reachable-Sound heap _ run)

  -- A call of an idle table could only be held behind a project's read that is out.
  held_back :
      (t : Table) (key : String) (id : ℕ)
      → t.warm ≡ true
      → t.taken ≡ []
      → t.waiting ≡ []
      → Place Nothing t key id
      → (is_instance (t.heap id).kind ≡ true)
        × (is_running t.calls (project_key (t.heap id).project) ≡ true)
  held_back t key id warm quiet none_wait (in_flight h) = absurd (subst (In id) quiet h)
  held_back t key id warm quiet none_wait (refused h) = absurd (subst (In id) none_wait h)
  held_back t key id warm quiet none_wait (held_cold cold inst h) = absurd cc
  held_back t key id warm quiet none_wait (behind inst h (inl running)) = (inst, running)
  held_back t key id warm quiet none_wait (behind inst h (inr landed)) = absurd landed

  running_some :
      (calls : Dict ℕ) (key : String)
      → is_running calls key ≡ true
      → (id : ℕ) × (lookup key calls ≡ some id)
  running_some calls key h = elim (Option-cases (lookup key calls)) [
    | inl absent ↦
        let no : true ≡ false =
          sym h ∙ ap (λ o. elim o as (λ x. Bool) [ none ↦ false | some i ↦ true ]) absent in
        absurd (cc no)
    | inr found ↦ found
  ]

  placed_at :
      (t : Table) (key : String) (id : ℕ)
      → IsSound t
      → lookup key t.calls ≡ some id
      → Place Nothing t key id
  placed_at t key id s held = elim (s.placed key id held) [
    | inl place ↦ place
    | inr none_due ↦ absurd none_due
  ]

  -- In any run of the table of reads, from the empty table on and with a pool that takes or refuses
  -- each read it is offered as it likes, once the table is warm, the pool owes no answer and no
  -- call waits for it, the table holds no call: no read is left behind, neither held cold, nor
  -- behind its project, nor forgotten when it was joined, replaced or refused.
  pub idle_none_out :
      (heap : ℕ → Call) (t : Table)
      → Reach heap t
      → t.warm ≡ true
      → t.taken ≡ []
      → t.waiting ≡ []
      → (key : String) → lookup key t.calls ≡ none
  idle_none_out heap t run warm quiet none_wait key =
      let s = reachable-Sound heap t run in
      elim (Option-cases (lookup key t.calls)) [
        | inl absent ↦ absent
        | inr (id, held) ↦
            let first = held_back t key id warm quiet none_wait (placed_at t key id s held) in
            let project = (t.heap id).project in
            let (j, out) = running_some t.calls (project_key project) first.1 in
            let second =
              held_back t (project_key project) j warm quiet none_wait
                (placed_at t (project_key project) j s out) in
            absurd (
              instance_key (t.heap j) project (s.named (project_key project) j out) second.0
                (s.keyed (project_key project) j out))
      ]

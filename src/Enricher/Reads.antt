-- ===== src/Enricher/Reads.antt =====
-- The table of Incus reads that the enricher has out: `deferred` of ievent/enricher/reads.go. A call
-- is known by a number, its pointer, and the table's heap holds its fields; a context's cancel
-- function is known by the call that it was made for. Whether the pool takes the next read that it
-- is offered is a parameter, since the pool is a library's. All of it runs on one goroutine; the
-- timer and the reads themselves are left to the caller.
use incus_compose.Prelude.{
  ℤ, pos, negsuc, ℕ, zero, suc, Bool, true, false, not, ◌&&◌, ◌||◌, Option, none, some, String,
  List, [], ◌∷◌, ◌++◌, str_eq, str_append, if◌then◌else◌, ◌==◌, delete_func,
}
use incus_compose.Prelude.Dict.{Dict, lookup, insert, delete}
mod Sound
mod Sending
mod Replacing
mod Passing
mod Landing
mod Keys
mod Idle
mod Tests

pub data Kind : Type 0 where
  instance_read network_read project_read : Kind

abbrev pub kind_text : Kind → String
kind_text instance_read = "ins"
kind_text network_read = "net"
kind_text project_read = "prj"

abbrev pub is_instance : Kind → Bool
is_instance instance_read = true
is_instance network_read = false
is_instance project_read = false

abbrev pub is_project : Kind → Bool
is_project instance_read = false
is_project network_read = false
is_project project_read = true

-- `resourceKey`
unfoldable pub resource_key : Kind → String → String → String
resource_key kind project name =
    str_append (kind_text kind) (str_append "/" (str_append project (str_append "/" name)))

pub record Call : Type 0 where
  pub key : String
  pub project : String
  pub name : String
  pub kind : Kind
  pub items : List ℕ
  pub ev : Option ℕ
  pub want_interfaces : Bool
  pub wait_for_running : Bool

abbrev pub first_event : Option ℕ → Option ℕ → Option ℕ
first_event none other = other
first_event (some ev) other = some ev

-- `call.join`
unfoldable pub join : Call → Call → Call
join c other = record c {
  items = c.items ++ other.items;
  ev = first_event c.ev other.ev;
  want_interfaces = c.want_interfaces || other.want_interfaces;
  wait_for_running = c.wait_for_running || other.wait_for_running;
}

pub record Table : Type 0 where
  pub heap : ℕ → Call
  pub calls : Dict ℕ
  -- The cancel functions, by the call whose read each of them aborts.
  pub cancels : Dict ℕ
  pub pending_project : Dict (List String)
  pub warm : Bool
  pub asked : Bool
  pub owed : ℤ
  pub cold : List String
  pub waiting : List ℕ
  -- The calls whose reads the pool has taken and has not answered, and how many it was offered.
  pub taken : List ℕ
  pub offered : ℕ

-- `newDeferred`
abbrev pub new_deferred : (ℕ → Call) → Table
new_deferred heap = record {
  heap = heap;
  calls = [];
  cancels = [];
  pending_project = [];
  warm = false;
  asked = false;
  owed = pos 0;
  cold = [];
  waiting = [];
  taken = [];
  offered = 0;
}

abbrev pub put : (ℕ → Call) → ℕ → Call → ℕ → Call
put heap id c i = if i == id then c else heap i

abbrev pub held_for : Dict (List String) → String → List String
held_for pending project = elim (lookup project pending) [ none ↦ [] | some keys ↦ keys ]

abbrev pub increment : ℤ → ℤ
increment (pos n) = pos (suc n)
increment (negsuc zero) = pos 0
increment (negsuc (suc n)) = negsuc n

abbrev pub decrement : ℤ → ℤ
decrement (pos zero) = negsuc 0
decrement (pos (suc n)) = pos n
decrement (negsuc n) = negsuc (suc n)

abbrev pub above_zero : ℤ → Bool
above_zero (pos zero) = false
above_zero (pos (suc n)) = true
above_zero (negsuc n) = false

abbrev pub is_running : Dict ℕ → String → Bool
is_running calls key = elim (lookup key calls) [ none ↦ false | some id ↦ true ]

-- `current`
abbrev pub current : Table → ℕ → Bool
current t id = elim (lookup (t.heap id).key t.calls) [ none ↦ false | some out ↦ out == id ]

abbrev pub remove_one : ℕ → List ℕ → List ℕ
remove_one id [] = []
remove_one id (x ∷ xs) = if x == id then xs else x ∷ remove_one id xs

-- `cancel`, of a key that `calls` holds; the call is what is returned.
unfoldable pub cancel : Table → String → ℕ → Table
cancel t key id =
    let c = t.heap id in
    let pending =
      insert c.project (delete_func (λ k. str_eq k key) (held_for t.pending_project c.project))
        t.pending_project in
    record t {
      cancels = delete key t.cancels;
      calls = delete key t.calls;
      waiting = delete_func (λ w. str_eq (t.heap w).key key) t.waiting;
      cold = delete_func (λ k. str_eq k key) t.cold;
      pending_project = if is_instance c.kind then pending else t.pending_project;
    }

-- What `send` makes of the call it is given, when it takes the place of the one it has cancelled.
unfoldable pub take_over : Call → Call → Call
take_over c prev = record c {
  items = prev.items ++ c.items;
  ev = first_event c.ev prev.ev;
  want_interfaces = c.want_interfaces || prev.want_interfaces;
}

-- `submit`, of a read that the pool takes or refuses.
unfoldable pub submitted : Bool → Table → ℕ → Table
submitted true t id = record t {
  cancels = insert (t.heap id).key id t.cancels;
  taken = t.taken ++ id ∷ [];
  offered = suc t.offered;
}
submitted false t id = record t {
  cancels = delete (t.heap id).key t.cancels;
  offered = suc t.offered;
}

unfoldable pub sent_or_waiting : Bool → Table → ℕ → Table
sent_or_waiting true t id = submitted true t id
sent_or_waiting false t id = record (submitted false t id) { waiting = t.waiting ++ id ∷ [] }

-- The call is put in the table, and counted if it reads a project.
unfoldable pub entered : Table → ℕ → Table
entered t id =
    let c = t.heap id in
    record t {
      calls = insert c.key id t.calls;
      owed = if is_project c.kind then increment t.owed else t.owed;
    }

module _ (takes : ℕ → Bool) where
  -- `submit`; whether the read was taken is `takes` at the table's count.
  unfoldable pub submit : Table → ℕ → Table
  submit t id = submitted (takes t.offered) t id

  -- The call is submitted, or waits when it is refused.
  unfoldable pub offer : Table → ℕ → Table
  offer t id = sent_or_waiting (takes t.offered) t id

  -- The end of `send`, from where the call is put in the table.
  unfoldable pub dispatch : Table → ℕ → Table
  dispatch t id =
      let c = t.heap id in
      let held = entered t id in
      let first = is_running held.calls (resource_key project_read c.project "") in
      if not t.warm && is_instance c.kind
      then record held { cold = t.cold ++ c.key ∷ [] }
      else if is_instance c.kind && first
      then record held {
        pending_project =
            insert c.project (held_for t.pending_project c.project ++ c.key ∷ []) t.pending_project;
      }
      else offer held id

  -- `send`
  unfoldable pub send : Table → ℕ → Table
  send t id =
      let c = t.heap id in
      elim (lookup c.key t.calls) [
        | none ↦ dispatch t id
        | some out ↦
            let o = t.heap out in
            let cancelled = cancel t c.key out in
            if is_instance c.kind && c.wait_for_running && not o.wait_for_running
            then dispatch (record cancelled { heap = put t.heap id (take_over c o) }) id
            else record t { heap = put t.heap out (join o c) }
      ]

  -- The loop of `flush`.
  unfoldable pub send_cold : List String → Table → Table
  send_cold [] t = t
  send_cold (key ∷ keys) t = elim (lookup key t.calls) [
    | none ↦ send_cold keys t
    | some id ↦ send_cold keys (send (record t { calls = delete key t.calls }) id)
  ]

  -- `flush`
  unfoldable pub flush : Table → Table
  flush t =
      let asked = record t { asked = true } in
      if t.warm || above_zero t.owed
      then asked
      else send_cold t.cold (record asked { cold = []; warm = true })

  -- `retry`: the calls are submitted from the front on, until one is refused.
  unfoldable pub retry_from : List ℕ → Table → Table
  retry_from [] t = record t { waiting = [] }
  retry_from (id ∷ ids) t =
      let sent = submit t id in
      let rest = retry_from ids sent in
      if takes t.offered then rest else record sent { waiting = id ∷ ids }

  unfoldable pub retry : Table → Table
  retry t = retry_from t.waiting t

  -- The loop of `done` over the instances held behind a project.
  unfoldable pub send_pending : List String → Table → Table
  send_pending [] t = t
  send_pending (key ∷ keys) t = elim (lookup key t.calls) [
    | none ↦ send_pending keys t
    | some id ↦ send_pending keys (offer t id)
  ]

  -- The end of `done`, once the project's own call is gone.
  unfoldable pub release_pending : String → Table → Table
  release_pending project t =
      send_pending (held_for t.pending_project project)
        (record t { pending_project = delete project t.pending_project })

  -- `done`
  unfoldable pub done : Table → ℕ → Table
  done t id =
      let c = t.heap id in
      let landed = record t { calls = delete c.key t.calls; cancels = delete c.key t.cancels } in
      let paid = record landed { owed = decrement t.owed } in
      if is_project c.kind
      then release_pending c.project (if t.asked then flush paid else paid)
      else landed

  -- What a result does to the table: it is dropped where its call is not `current`, as `settleRead`
  -- of enricher.go drops it.
  unfoldable pub settle_read : Table → ℕ → Table
  settle_read t id =
      let answered = record t { taken = remove_one id t.taken } in
      let landed = done answered id in if current t id then landed else answered

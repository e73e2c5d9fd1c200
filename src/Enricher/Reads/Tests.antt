-- ===== src/Enricher/Reads/Tests.antt =====
-- A run of the enricher's table of reads (ievent/enricher/reads.go).
use incus_compose.Prelude.{
  ℕ, ◌≡◌, refl, Bool, true, false, not, str_eq, if◌then◌else◌, ◌==◌, Option, none, some, String, [],
  ◌∷◌, inl,
}
use incus_compose.Prelude.Dict.{lookup, insert, delete}
use incus_compose.Enricher.Reads.{
  Call, Table, Kind, instance_read, project_read, resource_key, put, new_deferred, join, cancel,
  take_over, submitted, sent_or_waiting, entered, submit, offer, dispatch, send, send_cold, flush,
  retry_from, retry, send_pending, release_pending, done, settle_read,
}
use incus_compose.Enricher.Reads.Sound.{IsNamed}
use incus_compose.Enricher.Reads.Idle.{
  sends, flushes, retries, settles, Reach, start, next, idle_none_out,
}

abbrev call_of : Kind → String → String → String → Call
call_of kind key project name = record {
  key = key;
  project = project;
  name = name;
  kind = kind;
  items = [];
  ev = none;
  want_interfaces = false;
  wait_for_running = false;
}

abbrev web : Call
web = call_of instance_read "ins/shop/web" "shop" "web"

abbrev shop : Call
shop = call_of project_read "prj/shop/" "shop" ""

web-IsNamed : IsNamed web
unfolding resource_key
web-IsNamed = record { key_of = refl; nameless = λ h. absurd cc }

shop-IsNamed : IsNamed shop
unfolding resource_key
shop-IsNamed = record { key_of = refl; nameless = λ h. refl }

-- The pool refuses the second read that it is offered.
abbrev takes : ℕ → Bool
takes n = not (n == 1)

abbrev empty_heap : ℕ → Call
empty_heap n = web

-- An instance read comes cold and its project's read goes out; the run ends, the project lands, the
-- instance's read is refused, offered again and lands.
abbrev after_web : Table
after_web = send takes (record (new_deferred empty_heap) { heap = put empty_heap 0 web }) 0

abbrev after_shop : Table
after_shop = send takes (record after_web { heap = put after_web.heap 1 shop }) 1

abbrev after_flush : Table
after_flush = flush takes after_shop

abbrev after_project : Table
after_project = settle_read takes after_flush 1

abbrev after_retry : Table
after_retry = retry takes after_project

abbrev after_all : Table
after_all = settle_read takes after_retry 0

abbrev only_zero : Bool → Option ℕ
only_zero b = if b then some 0 else none

only_web : (b : Bool) → only_zero b ≡ some 1 → ⊥
only_web true held = absurd (cc held)
only_web false held = absurd (cc held)

waiting_test : after_project.waiting ≡ 0 ∷ []
unfolding join cancel take_over submitted sent_or_waiting entered submit offer dispatch send
    send_cold flush retry_from retry send_pending release_pending done settle_read lookup insert
    delete resource_key
waiting_test = refl

run_reach : Reach takes empty_heap after_all
unfolding join cancel take_over submitted sent_or_waiting entered submit offer dispatch send
    send_cold flush retry_from retry send_pending release_pending done settle_read lookup insert
    delete resource_key
run_reach =
    next
      (next
        (next
          (next
            (next (next start (sends 0 web web-IsNamed (λ key held. absurd cc)))
              (sends 1 shop shop-IsNamed (λ key held. only_web (str_eq "ins/shop/web" key) held)))
            flushes)
          (settles 1 (inl refl)))
        retries)
      (settles 0 (inl refl))

idle_none_out_example : lookup "ins/shop/web" after_all.calls ≡ none
unfolding join cancel take_over submitted sent_or_waiting entered submit offer dispatch send
    send_cold flush retry_from retry send_pending release_pending done settle_read lookup insert
    delete resource_key
idle_none_out_example =
    idle_none_out takes empty_heap after_all run_reach refl refl refl "ins/shop/web"

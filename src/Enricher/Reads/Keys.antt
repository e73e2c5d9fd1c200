-- ===== src/Enricher/Reads/Keys.antt =====
-- The keys of the reads (`resourceKey` of ievent/enricher/state.go).
use Prim.Native.String.{len, slice}
use text.Mathlib.TextPositions.{slice-append_left}
use text.Mathlib.TextLemmas.{append_cancel_left, append_cancel_right}
use incus_compose.Prelude.{
  refl, sym, ap₂, ◌∙◌, str_eq, str_eq_iff, ◌≡◌, arith, String, str_append, false,
}
use incus_compose.Enricher.Reads.{
  Kind, instance_read, network_read, project_read, is_project, resource_key,
}

-- Two projects with one key are one project.
pub resource_key_project :
    (p q : String) → resource_key project_read p "" ≡ resource_key project_read q "" → p ≡ q
unfolding resource_key
resource_key_project p q same =
    let after_kind =
      append_cancel_left "prj" (str_append "/" (str_append p "/"))
        (str_append "/" (str_append q "/")) same in
    append_cancel_right p q "/"
      (append_cancel_left "/" (str_append p "/") (str_append q "/") after_kind)

-- Two texts that begin with three letters each begin with the same ones if they are one.
same_start : (k l a b : String) → len k ≡ 3 → len l ≡ 3 → str_append k a ≡ str_append l b → k ≡ l
same_start k l a b hk hl same =
    sym (slice-append_left k a)
    ∙ ap₂ (λ s n. slice s 0 n) same (hk ∙ sym hl)
    ∙ slice-append_left l b

differ : (k l : String) → str_eq k l ≡ false → k ≡ l → ⊥
differ k l unlike same = ground (arith, str_eq_iff k l)

-- The key of a project is no key of an instance or a network.
pub resource_key_kind :
    (kind : Kind) (p n q : String)
    → is_project kind ≡ false
    → resource_key kind p n ≡ resource_key project_read q ""
    → ⊥
unfolding resource_key
resource_key_kind instance_read p n q h same =
    absurd (differ "ins" "prj" refl (same_start "ins" "prj" _ _ refl refl same))
resource_key_kind network_read p n q h same =
    absurd (differ "net" "prj" refl (same_start "net" "prj" _ _ refl refl same))
resource_key_kind project_read p n q h same = absurd cc

-- ===== src/Labels/Merged.antt =====
-- Who sets a label: `merged` of cmd/ic-dns/dns/labels.go.
use incus_compose.Prelude.{
  ◌≡◌, sym, ap, ◌∙◌, subst, ◌⊎◌, inl, inr, Bool, true, false, not, ◌||◌, some, String, [], ◌∷◌,
  str_eq, str_eq_iff, if◌then◌else◌, if_split, All, In, Bool-cases, has_prefix, trim_prefix, arith,
}
use incus_compose.Prelude.Dict.{Dict, lookup, insert, lookup-insert}
use incus_compose.Labels.{
  is_project_side, is_instance_side, kind_of, user_label, from_instance, from_project, merged,
}

-- The project's configuration holds the label, under its own key or with the prefix of an instance.
abbrev pub SetByProject : Dict String → String → String → Type 0
SetByProject config k v = (key : String) × In (key, v) config × (trim_prefix key user_label ≡ k)

-- The instance's configuration holds the label, with the prefix.
abbrev pub SetByInstance : Dict String → String → String → Type 0
SetByInstance config k v =
    (key : String) × In (key, v) config
    × (has_prefix key user_label ≡ true)
    × (trim_prefix key user_label ≡ k)

-- No key of the project is the label's.
abbrev pub Unset : Dict String → String → Type 0
Unset config k = All (λ entry. str_eq (trim_prefix entry.0 user_label) k ≡ false) config

neither : (a b : Bool) → not a || b ≡ false → (a ≡ true) × (b ≡ false)
neither a b h = ground arith

module _ (k v : String) where
  -- What the project sets, or what was there before it.
  abbrev FromProject : Dict String → Dict String → Type 0
  FromProject config out =
      ((is_instance_side (kind_of k) ≡ false) × SetByProject config k v)
      ⊎ ((lookup k out ≡ some v) × ((is_instance_side (kind_of k) ≡ true) ⊎ Unset config k))

  later :
      (key value : String) (more : Dict String)
      → SetByProject more k v
      → SetByProject ((key, value) ∷ more) k v
  later key value more (found, here, spells) = (found, inr here, spells)

  from_project-lem :
      (config out : Dict String)
      → lookup k (from_project config out) ≡ some v
      → FromProject config out
  unfolding from_project
  from_project-lem [] out = λ held. inr (held, inr tt)
  from_project-lem ((key, value) ∷ more) out =
      let ours = trim_prefix key user_label in
      let inserted = insert ours value out in
      if_split (λ m. lookup k m ≡ some v → FromProject ((key, value) ∷ more) out)
        (is_instance_side (kind_of ours)) (from_project more out) (from_project more inserted)
        (λ skips held. elim (from_project-lem more out held) [
          | inl (side, set) ↦ inl (side, later key value more set)
          | inr (before, inl side) ↦ inr (before, inl side)
          | inr (before, inr unset) ↦ elim (Bool-cases (str_eq ours k)) [
            | inl this ↦ inr (
              before,
              inl (
                  subst (λ x. is_instance_side (kind_of x) ≡ true) ((str_eq_iff ours k).0 this)
                    skips),
            )
            | inr other ↦ inr (before, inr (other, unset))
          ]
        ])
        (λ sets held. elim (from_project-lem more inserted held) [
          | inl (side, set) ↦ inl (side, later key value more set)
          | inr (found, why) ↦
              let at = sym (lookup-insert ours k value out) ∙ found in
              elim (Bool-cases (str_eq ours k)) [
                | inl this ↦
                    let both : some value ≡ some v =
                      sym (ap (λ b. if b then some value else lookup k out) this) ∙ at in
                    let one = (str_eq_iff ours k).0 this in
                    inl (
                      subst (λ x. is_instance_side (kind_of x) ≡ false) one sets,
                      (key, inl (ap (λ x. (key, x)) (cc both)), one),
                    )
                | inr other ↦
                    let before =
                      sym (ap (λ b. if b then some value else lookup k out) other) ∙ at in
                    elim why [
                      | inl side ↦ inr (before, inl side)
                      | inr unset ↦ inr (before, inr (other, unset))
                    ]
              ]
        ])

  -- What the instance sets, or what was there before it.
  abbrev FromInstance : Dict String → Dict String → Type 0
  FromInstance config out =
      ((is_project_side (kind_of k) ≡ false) × SetByInstance config k v) ⊎ (lookup k out ≡ some v)

  also_later :
      (key value : String) (more : Dict String)
      → SetByInstance more k v
      → SetByInstance ((key, value) ∷ more) k v
  also_later key value more (found, here, prefixed, spells) = (found, inr here, prefixed, spells)

  from_instance-lem :
      (config out : Dict String)
      → lookup k (from_instance config out) ≡ some v
      → FromInstance config out
  unfolding from_instance
  from_instance-lem [] out = λ held. inr held
  from_instance-lem ((key, value) ∷ more) out =
      let ours = trim_prefix key user_label in
      let inserted = insert ours value out in
      if_split (λ m. lookup k m ≡ some v → FromInstance ((key, value) ∷ more) out)
        (not (has_prefix key user_label) || is_project_side (kind_of ours)) (from_instance more out)
        (from_instance more inserted)
        (λ skips held. elim (from_instance-lem more out held) [
          | inl (side, set) ↦ inl (side, also_later key value more set)
          | inr before ↦ inr before
        ])
        (λ sets held. elim (from_instance-lem more inserted held) [
          | inl (side, set) ↦ inl (side, also_later key value more set)
          | inr found ↦
              let at = sym (lookup-insert ours k value out) ∙ found in
              elim (Bool-cases (str_eq ours k)) [
                | inl this ↦
                    let both : some value ≡ some v =
                      sym (ap (λ b. if b then some value else lookup k out) this) ∙ at in
                    let one = (str_eq_iff ours k).0 this in
                    let tests =
                      neither (has_prefix key user_label) (is_project_side (kind_of ours)) sets in
                    inl (
                      subst (λ x. is_project_side (kind_of x) ≡ false) one tests.1,
                      (key, inl (ap (λ x. (key, x)) (cc both)), tests.0, one),
                    )
                | inr other ↦
                    inr (sym (ap (λ b. if b then some value else lookup k out) other) ∙ at)
              ]
        ])

-- Whatever order the maps are visited in, the value of a label that is merged is either one that
-- the project may set and sets, or one that the instance may set and sets with the prefix, of a
-- label that the project may not set or does not.
pub merged-set :
    (instance_config project_config : Dict String) (k v : String)
    → lookup k (merged instance_config project_config) ≡ some v
    → ((is_instance_side (kind_of k) ≡ false) × SetByProject project_config k v)
      ⊎ ((is_project_side (kind_of k) ≡ false)
          × SetByInstance instance_config k v
          × ((is_instance_side (kind_of k) ≡ true) ⊎ Unset project_config k))
unfolding merged lookup
merged-set instance_config project_config k v held =
    elim (from_project-lem k v project_config (from_instance instance_config []) held) [
      | inl project ↦ inl project
      | inr (before, why) ↦ elim (from_instance-lem k v instance_config [] before) [
        | inl (side, set) ↦ inr (side, set, why)
        | inr nothing ↦ absurd cc
      ]
    ]

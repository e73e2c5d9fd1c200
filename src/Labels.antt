-- ===== src/Labels.antt =====
-- The labels that ic-dns reads off an instance and its project: cmd/ic-dns/dns/labels.go. A Go map
-- that is ranged over lists its entries in the order in which the loop happens to visit them.
use Prim.Native.String.{len, slice}
use incus_compose.Prelude.{
  Bool, true, false, not, ◌&&◌, ◌||◌, Option, none, some, String, List, [], ◌∷◌, str_eq,
  if◌then◌else◌, has_prefix, trim_prefix, trim_space,
}
use incus_compose.Prelude.Dict.{Dict, lookup, insert}
mod Merged
mod Tests

-- `labelKind`; a key of the table `kinds` that is not there may come from either side.
pub data LabelKind : Type 0 where
  either_side project_side instance_side : LabelKind

-- `kinds`
unfoldable pub kind_of : String → LabelKind
kind_of key =
    if str_eq key "dns.ns" || str_eq key "dns.transfer"
    then project_side
    else if str_eq key "dns.aliases"
        || str_eq key "dns.service"
        || str_eq key "incus-compose.service"
    then instance_side
    else either_side

abbrev pub is_project_side : LabelKind → Bool
is_project_side either_side = false
is_project_side project_side = true
is_project_side instance_side = false

abbrev pub is_instance_side : LabelKind → Bool
is_instance_side either_side = false
is_instance_side project_side = false
is_instance_side instance_side = true

abbrev pub user_label : String
user_label = "user.label."

-- The first loop of `merged`, over what the instance sets.
unfoldable pub from_instance : Dict String → Dict String → Dict String
from_instance [] out = out
from_instance ((key, value) ∷ more) out =
    let ours = trim_prefix key user_label in
    let skipped = from_instance more out in
    let set = from_instance more (insert ours value out) in
    if not (has_prefix key user_label) || is_project_side (kind_of ours) then skipped else set

-- The second loop, over what the project sets.
unfoldable pub from_project : Dict String → Dict String → Dict String
from_project [] out = out
from_project ((key, value) ∷ more) out =
    let ours = trim_prefix key user_label in
    let skipped = from_project more out in
    let set = from_project more (insert ours value out) in
    if is_instance_side (kind_of ours) then skipped else set

-- `merged`
unfoldable pub merged : Dict String → Dict String → Dict String
merged instance_config project_config =
    from_project project_config (from_instance instance_config [])

-- `labels`
unfoldable pub labels : Dict String → Dict String → Dict String
labels [] out = out
labels ((key, value) ∷ more) out =
    let text = trim_space value in
    let skipped = labels more out in
    let kept = labels more (insert (trim_prefix key "dns.") text out) in
    if not (has_prefix key "dns.") || str_eq text "" then skipped else kept

-- `meta`
unfoldable pub meta : Dict String → Dict String → Dict String
meta instance_config project_config =
    let config = merged instance_config project_config in
    let out = labels config [] in
    let compose =
      trim_space (elim (lookup "incus-compose.service" config) [ none ↦ "" | some v ↦ v ]) in
    if str_eq compose "" then out else insert "service" compose out

-- ===== src/Placement/Storage.antt =====
-- Whether a service's storage is shared by the cluster: `isServiceStorageRemote` of
-- project/placement.go on `IsStoragePoolRemote` and `isStorageDriverRemote` of
-- client/global_client.go, whose cache is passed on. Each call of the client holds its lock for one
-- access to the cache at a time; the calls of one service come one after the other.
use incus_compose.Prelude.{
  Bool, true, false, not, ◌&&◌, ◌||◌, Option, none, some, String, List, [], ◌∷◌, str_eq, str_eq_iff,
  if◌then◌else◌, has_prefix, ◌≡◌, ap, ◌∙◌, sym, refl, if_both₂, inl, inr, Bool-cases,
}
use incus_compose.Prelude.Dict.{Dict, lookup, insert, lookup-insert}

-- `api.ServerStorageDriverInfo`
pub record Driver : Type 0 where
  pub name : String
  pub remote : Bool

pub record Volume : Type 0 where
  pub volume_type : String
  pub source : String

-- The pool that a volume's definition names, empty where it names none.
abbrev pub pool_of : Dict String → String → String
pool_of volumes source = elim (lookup source volumes) [ none ↦ "" | some pool ↦ pool ]

-- `isStorageDriverRemote`
unfoldable pub is_storage_driver_remote : List Driver → String → Bool
is_storage_driver_remote [] driver = false
is_storage_driver_remote (d ∷ ds) driver =
    let rest = is_storage_driver_remote ds driver in if str_eq d.name driver then d.remote else rest

unfoldable pub is_volume : Volume → Bool
is_volume v =
    str_eq v.volume_type "volume"
    || (str_eq v.volume_type ""
        && not (str_eq v.source "")
        && not (has_prefix v.source "/")
        && not (has_prefix v.source "."))

-- An answer, `none` for an error, and the cache as it is left.
abbrev pub Answer : Type 0
Answer = Option Bool × Dict Bool

-- What Incus answers for a pool: its driver, or an error; the drivers that the server supports; and
-- the default pools that the client and the project are configured with.
module _ (driver_of : String → Option String) (drivers : List Driver)
    (client_pool project_pool : String) where
  -- What the server says of a pool, and the cache with it.
  ask : Dict Bool → String → Option String → Answer
  ask cache pool none = (none, cache)
  ask cache pool (some driver) =
      let remote = is_storage_driver_remote drivers driver in
      (some remote, insert pool remote cache)

  serve : Dict Bool → String → Option Bool → Answer
  unfolding ask
  serve cache pool (some remote) = (some remote, cache)
  serve cache pool none = ask cache pool (driver_of pool)

  -- `IsStoragePoolRemote`
  unfoldable pub is_storage_pool_remote : Dict Bool → String → Answer
  unfolding serve
  is_storage_pool_remote cache named =
      let pool = if str_eq named "" then client_pool else named in
      serve cache pool (lookup pool cache)

  -- The loop over the volumes; `go_on` is what an answer makes of the rest of it.
  go_on : Answer → (Dict Bool → Answer) → Answer
  go_on (none, cache) rest = (none, cache)
  go_on (some false, cache) rest = (some false, cache)
  go_on (some true, cache) rest = rest cache

  unfoldable pub volumes_remote : Dict String → List Volume → Dict Bool → Answer
  unfolding go_on
  volumes_remote volumes [] cache = (some true, cache)
  volumes_remote volumes (v ∷ vs) cache =
      let pool = pool_of volumes v.source in
      let skipped = volumes_remote volumes vs cache in
      let asked =
        go_on (is_storage_pool_remote cache pool) (λ after. volumes_remote volumes vs after) in
      if not (is_volume v) || str_eq pool "" then skipped else asked

  -- `isServiceStorageRemote`
  unfoldable pub is_service_storage_remote : Dict String → List Volume → Dict Bool → Answer
  unfolding go_on
  is_service_storage_remote volumes vs cache =
      go_on (is_storage_pool_remote cache project_pool) (λ after. volumes_remote volumes vs after)

  -- What the server says of a pool, without the cache.
  drive : Option String → Option Bool
  drive none = none
  drive (some driver) = some (is_storage_driver_remote drivers driver)

  abbrev pub pool_remote : String → Option Bool
  unfolding drive
  pool_remote named = drive (driver_of (if str_eq named "" then client_pool else named))

  -- The pools that a service's volumes are in.
  abbrev pub named_pools : Dict String → List Volume → List String
  named_pools volumes [] = []
  named_pools volumes (v ∷ vs) =
      let pool = pool_of volumes v.source in
      let rest = named_pools volumes vs in
      if not (is_volume v) || str_eq pool "" then rest else pool ∷ rest

  both : Option Bool → Option Bool → Option Bool
  both none rest = none
  both (some false) rest = some false
  both (some true) rest = rest

  -- Whether all of them are remote, asked in order, up to the first that is not or that fails.
  abbrev pub all_remote : List String → Option Bool
  unfolding both
  all_remote [] = some true
  all_remote (pool ∷ pools) = both (pool_remote pool) (all_remote pools)

  -- The cache holds what the server says.
  abbrev pub IsTrue : Dict Bool → Type 0
  IsTrue cache =
      (pool : String) (remote : Bool)
      → lookup pool cache ≡ some remote
      → (driver : String) × (driver_of pool ≡ some driver)
        × (is_storage_driver_remote drivers driver ≡ remote)

  -- An answer that is the server's, with a cache that is the server's.
  abbrev pub Says : Option Bool → Answer → Type 0
  Says truth answer = (answer.0 ≡ truth) × IsTrue answer.1

  ask-Says :
      (cache : Dict Bool) (pool : String) (o : Option String)
      → driver_of pool ≡ o
      → IsTrue cache
      → Says (drive o) (ask cache pool o)
  unfolding ask drive
  ask-Says cache pool none found h = (refl, h)
  ask-Says cache pool (some driver) found h = (
    refl,
    λ other remote held.
        let now = is_storage_driver_remote drivers driver in
        let seen = sym (lookup-insert pool other now cache) ∙ held in
        elim (Bool-cases (str_eq pool other)) [
          | inl same ↦
              let this : some now ≡ some remote =
                sym (ap (λ b. if b then some now else lookup other cache) same) ∙ seen in
              (driver, ap driver_of (sym ((str_eq_iff pool other).0 same)) ∙ found, cc this)
          | inr differs ↦
              h other remote
                (sym (ap (λ b. if b then some now else lookup other cache) differs) ∙ seen)
        ],
  )

  serve-Says :
      (cache : Dict Bool) (pool : String) (o : Option Bool)
      → lookup pool cache ≡ o
      → IsTrue cache
      → Says (drive (driver_of pool)) (serve cache pool o)
  unfolding serve drive
  serve-Says cache pool none found h = ask-Says cache pool (driver_of pool) refl h
  serve-Says cache pool (some remote) found h =
      let (driver, known, same) = h pool remote found in
      (ap some (sym same) ∙ sym (ap drive known), h)

  is_storage_pool_remote-Says :
      (cache : Dict Bool) (named : String)
      → IsTrue cache
      → Says
          (drive (driver_of (if str_eq named "" then client_pool else named)))
          (is_storage_pool_remote cache named)
  unfolding is_storage_pool_remote
  is_storage_pool_remote-Says cache named h =
      let pool = if str_eq named "" then client_pool else named in
      serve-Says cache pool (lookup pool cache) refl h

  go_on-Says :
      (answer : Answer) (rest : Dict Bool → Answer) (truth more : Option Bool)
      → Says truth answer
      → ((cache : Dict Bool) → IsTrue cache → Says more (rest cache))
      → Says (both truth more) (go_on answer rest)
  unfolding go_on both
  go_on-Says (none, cache) rest none more h f = h
  go_on-Says (none, cache) rest (some b) more h f = absurd cc
  go_on-Says (some b, cache) rest none more h f = absurd cc
  go_on-Says (some true, cache) rest (some true) more h f = f cache h.1
  go_on-Says (some false, cache) rest (some false) more h f = h
  go_on-Says (some true, cache) rest (some false) more h f = absurd cc
  go_on-Says (some false, cache) rest (some true) more h f = absurd cc

  volumes_remote-Says :
      (volumes : Dict String) (vs : List Volume) (cache : Dict Bool)
      → IsTrue cache
      → Says (all_remote (named_pools volumes vs)) (volumes_remote volumes vs cache)
  unfolding volumes_remote all_remote pool_remote drive
  volumes_remote-Says volumes [] cache h = (refl, h)
  volumes_remote-Says volumes (v ∷ vs) cache h =
      let pool = pool_of volumes v.source in
      let skip = not (is_volume v) || str_eq pool "" in
      let rest = named_pools volumes vs in
      let skipped = volumes_remote volumes vs cache in
      let asked : Answer =
        go_on (is_storage_pool_remote cache pool) (λ after. volumes_remote volumes vs after) in
      if_both₂ (λ pools answer. Says (all_remote pools) answer) skip rest (pool ∷ rest) skipped
        asked (volumes_remote-Says volumes vs cache h)
        (go_on-Says (is_storage_pool_remote cache pool) (λ after. volumes_remote volumes vs after)
          (pool_remote pool) (all_remote rest) (is_storage_pool_remote-Says cache pool h)
          (λ after h'. volumes_remote-Says volumes vs after h'))

  -- With a cache that holds what the server says, whether the storage of a service is remote is
  -- answered as by asking the server, without a cache, for the pool of the project and the pools of
  -- the service, in order, up to the first that is not remote or that fails; and the cache that is
  -- left holds what the server says.
  pub is_service_storage_remote_lem :
      (volumes : Dict String) (vs : List Volume) (cache : Dict Bool)
      → IsTrue cache
      → ((is_service_storage_remote volumes vs cache).0
          ≡ all_remote (project_pool ∷ named_pools volumes vs))
        × IsTrue (is_service_storage_remote volumes vs cache).1
  unfolding is_service_storage_remote pool_remote drive all_remote both
  is_service_storage_remote_lem volumes vs cache h =
      go_on-Says (is_storage_pool_remote cache project_pool)
        (λ after. volumes_remote volumes vs after) (pool_remote project_pool)
        (all_remote (named_pools volumes vs)) (is_storage_pool_remote-Says cache project_pool h)
        (λ after h'. volumes_remote-Says volumes vs after h')

-- ===== src/Checker/Config.antt =====
-- `parseInstanceConfig` of cmd/ic-healthd/checker/instance.go. The decoders of JSON, durations and
-- numbers, and Incus's `util.IsTrue`, are parameters: the function only branches on their results.
use incus_compose.Prelude.{
  ℤ, pos, negsuc, ℕ, ◌<◌, ◌≡◌, arith, Bool, false, not, ◌&&◌, ◌||◌, Option, none, some, String,
  List, [], ◌∷◌, ltb, ◌==◌, if◌then◌else◌, str_eq, length,
}
use incus_compose.Prelude.Dict.{Dict, lookup}
use incus_compose.Checker.Types.{
  InstanceConfig, CheckError, no_healthcheck, not_enabled, other, default_restart_interval,
  default_interval, default_timeout, default_retries,
}
use incus_compose.Checker.Step.{tracked}

pub data Parsed {ℓ} (A : Type ℓ) : Type ℓ where
  ok : A → Parsed A
  err : CheckError → Parsed A

infixl 5 ◌>>=◌
abbrev pub ◌>>=◌ {ℓ κ} : {A : Type ℓ} {B : Type κ} → Parsed A → (A → Parsed B) → Parsed B
ok a >>= f = f a
err e >>= f = err e

-- `json.Unmarshal` into a list of texts, `time.ParseDuration`, `strconv.ParseUint(v, 10, 32)` and
-- `util.IsTrue`.
pub record Decoders : Type 0 where
  pub json_texts : String → Option (List String)
  pub duration : String → Option ℤ
  pub uint32 : String → Option ℕ
  pub is_true : String → Bool

-- Go's `m[k]`: the empty text for a missing key.
unfoldable pub value_of : Dict String → String → String
value_of config k = elim (lookup k config) [ none ↦ "" | some v ↦ v ]

unfoldable pub parse_signed : (String → Option ℤ) → String → ℤ → Parsed ℤ
parse_signed duration v default =
    if str_eq v "" then ok default else elim (duration v) [ none ↦ err other | some d ↦ ok d ]

abbrev pub natural : ℤ → ℕ
natural (pos n) = n
natural (negsuc n) = 0

-- A duration that must be greater than 0.
unfoldable pub parse_positive : (String → Option ℤ) → String → ℕ → Parsed ℕ
parse_positive duration v default = if str_eq v "" then ok default else elim (duration v) [
  | none ↦ err other
  | some d ↦ if ltb 0 (natural d) then ok (natural d) else err other
]

unfoldable pub parse_retries : (String → Option ℕ) → String → ℕ → Parsed ℕ
parse_retries uint32 v default =
    if str_eq v ""
    then ok default
    else elim (uint32 v) [ none ↦ err other | some n ↦ if n == 0 then err other else ok n ]

-- Absent or unreadable parses to 0, which is root.
abbrev pub id_or_root : Option ℕ → ℕ
id_or_root none = 0
id_or_root (some n) = n

abbrev pub lone_shell : List String → Bool
lone_shell [] = false
lone_shell (word ∷ rest) = str_eq word "CMD-SHELL" && length rest == 0

-- A restart policy without a test probes with a no-op, so that the run state is watched.
unfoldable pub parse_test : (String → Option (List String)) → String → String → Parsed (List String)
parse_test json_texts raw policy =
    let wanted = if str_eq raw "" && tracked policy then "[\"NONE\"]" else raw in
    if str_eq wanted "" then ok [] else elim (json_texts wanted) [
      | none ↦ err other
      | some test ↦ if lone_shell test then err other else ok test
    ]

unfoldable pub parse_instance_config : Decoders → Dict String → Bool → Parsed InstanceConfig
parse_instance_config dec config is_running =
    let raw = value_of config "user.healthcheck.test" in
    let policy = value_of config "user.healthcheck.restart" in
    let wants_checking = not (str_eq raw "") || tracked policy in
    if not (dec.is_true (value_of config "user.healthcheck.enabled"))
    then (if wants_checking then err not_enabled else err no_healthcheck)
    else if not wants_checking
    then err no_healthcheck
    else do
      test ← parse_test dec.json_texts raw policy
      start_period ←
          parse_signed dec.duration (value_of config "user.healthcheck.start_period") (pos 0)
      start_interval ←
          parse_positive dec.duration (value_of config "user.healthcheck.start_interval")
            default_restart_interval
      interval ←
          parse_positive dec.duration (value_of config "user.healthcheck.interval") default_interval
      timeout ←
          parse_positive dec.duration (value_of config "user.healthcheck.timeout") default_timeout
      retries ←
          parse_retries dec.uint32 (value_of config "user.healthcheck.retries") default_retries
      ok (record {
        test = test;
        start_period = start_period;
        start_interval = start_interval;
        interval = interval;
        timeout = timeout;
        retries = retries;
        cwd = value_of config "oci.cwd";
        uid = id_or_root (dec.uint32 (value_of config "oci.uid"));
        gid = id_or_root (dec.uint32 (value_of config "oci.gid"));
        restart_policy = policy;
        running = is_running;
      })

-- What the numbers of an accepted configuration satisfy.
pub record IsChecked (cfg : InstanceConfig) : Type 0 where
  pub start_interval_pos : 0 < cfg.start_interval
  pub interval_pos : 0 < cfg.interval
  pub timeout_pos : 0 < cfg.timeout
  pub retries_pos : 0 < cfg.retries

abbrev IsPositive : Parsed ℕ → Type 0
IsPositive (ok n) = 0 < n
IsPositive (err e) = Unit

parse_positive-IsPositive :
    (duration : String → Option ℤ) (v : String) (default : ℕ)
    → 0 < default
    → IsPositive (parse_positive duration v default)
unfolding parse_positive
parse_positive-IsPositive duration v default h = ground arith

parse_retries-IsPositive :
    (uint32 : String → Option ℕ) (v : String) (default : ℕ)
    → 0 < default
    → IsPositive (parse_retries uint32 v default)
unfolding parse_retries
parse_retries-IsPositive uint32 v default h = ground arith

-- A configuration that parseInstanceConfig accepts has a positive interval, start interval, timeout
-- and number of retries, whatever the keys of the instance say.
pub parse_instance_config-IsChecked :
    (dec : Decoders) (config : Dict String) (is_running : Bool) {cfg : InstanceConfig}
    → parse_instance_config dec config is_running ≡ ok cfg
    → IsChecked cfg
unfolding parse_instance_config
parse_instance_config-IsChecked dec config is_running e = ground (
  arith,
  parse_positive-IsPositive dec.duration (value_of config "user.healthcheck.start_interval")
      default_restart_interval (omega arith),
  parse_positive-IsPositive dec.duration (value_of config "user.healthcheck.interval")
      default_interval (omega arith),
  parse_positive-IsPositive dec.duration (value_of config "user.healthcheck.timeout")
      default_timeout (omega arith),
  parse_retries-IsPositive dec.uint32 (value_of config "user.healthcheck.retries") default_retries
      (omega arith),
)

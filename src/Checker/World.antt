-- ===== src/Checker/World.antt =====
-- What Run of cmd/ic-healthd/checker/checker.go holds, the events that it folds, and the map that
-- it keeps its instances in.
use Prim.Native.String.{◌++◌ as str_append}
use incus_compose.Prelude.{
  ℕ, Bool, Option, none, some, String, List, [], ◌∷◌, ◌++◌, ltb, if◌then◌else◌, length,
}
use incus_compose.Prelude.Dict.{Dict, insert}
use incus_compose.Checker.Types.{
  Instance, CheckError, discovered, InstanceResult, Effect, cancel, Outcome, done, blocked,
  results_cap,
}

-- The lifecycle actions that `Wants` names, and any other.
pub data Lifecycle : Type 0 where
  started restarted resumed stopped shutdown updated deleted renamed other : Lifecycle

-- What the checker reads off an enriched event.
pub record Event : Type 0 where
  pub action : Lifecycle
  pub project : String
  pub name : String
  pub failed : Bool
  pub enriched_instance : Bool
  pub config : Dict String
  pub running : Bool

-- `results` is the buffer of the channel, and `effects` and `forwarded` what has gone out so far.
pub record World : Type 0 where
  pub instances : Dict Instance
  pub results : List InstanceResult
  pub effects : List Effect
  pub forwarded : List Event
  pub next_context : ℕ

abbrev pub key_of : String → String → String
key_of project name = str_append project (str_append "/" name)

abbrev pub inst_key : Event → String
inst_key ev = key_of ev.project ev.name

-- A send on the results channel waits while the buffer is full. The loop that would empty it is the
-- one that sends here, so a wait has no end but the abort of the daemon.
unfoldable pub send_result : InstanceResult → World → Outcome World
send_result res w =
    if ltb (length w.results) results_cap
    then done (record w { results = w.results ++ res ∷ [] })
    else blocked

unfoldable pub discovered_result : Event → CheckError → InstanceResult
discovered_result ev e = record {
  kind = discovered;
  name = ev.name;
  project = ev.project;
  ctx = none;
  config = none;
  status = "";
  err = some e;
}

abbrev pub cancels : Option ℕ → List Effect
cancels none = []
cancels (some c) = cancel c ∷ []

-- The instance as a handler leaves it, and what it started.
abbrev pub keep : String → Instance → List Effect → World → World
keep k inst fx w = record w { instances = insert k inst w.instances; effects = w.effects ++ fx }

-- ===== src/Updater/Machines.antt =====
-- The bundles and the processes that an update changes (crates/updater/src/lib.rs).
use link_pilot.Prelude.{
  ℕ, Bool, true, false, Option, none, some, List, [], ◌∷◌, Result, ok, err, if◌then◌else◌,
}
use link_pilot.Prelude.Anyhow.{Anyhow, anyhow}
use link_pilot.Prelude.Tasks.{Task, within}
use link_pilot.Core.Files.{FilePath, path_eq}
use link_pilot.Updater.Jobs.{Job}

-- A start of the app: what stood at the target, whether the job was passed, and the child's number.
pub record Start (App : Type 0) : Type 0 where
  pub app : Option App
  pub health : Bool
  pub pid : ℕ

-- The applications by their paths, the state of the daemon's service, what was started, the last one
-- first, the children killed, and the outcomes to come: of swaps and of waits, where `none` and an
-- end of the list go well, and of starts, where an end of the list fails.
pub record Mac (App Service : Type 0) : Type 0 where
  pub apps : FilePath → Option App
  pub service : Service
  pub started : List (Start App)
  pub killed : List ℕ
  pub swaps : List (Option Anyhow)
  pub waits : List (Option Anyhow)
  pub spawns : List (Result ℕ Anyhow)

abbrev pub Step : Type 0 → Type 0 → Type 0 → Type 0
Step App Service A = Task (Mac App Service) Anyhow A

abbrev pub first_of : List (Option Anyhow) → Option Anyhow
first_of [] = none
first_of (o ∷ os) = o

abbrev pub rest_of : List (Option Anyhow) → List (Option Anyhow)
rest_of [] = []
rest_of (o ∷ os) = os

abbrev pub spawned : List (Result ℕ Anyhow) → Result ℕ Anyhow × List (Result ℕ Anyhow)
spawned [] = (err (anyhow "starting LinkPilot"), [])
spawned (r ∷ rs) = (r, rs)

module _ {App : Type 0} where
  -- The two applications in each other's place.
  abbrev pub exchanged : (left right : FilePath) → (FilePath → Option App) → FilePath → Option App
  exchanged left right apps path =
      if path_eq path left then apps right else if path_eq path right then apps left else apps path

  abbrev pub both : Option App → Option App → Bool
  both (some a) (some b) = true
  both _ _ = false

module _ {App Service : Type 0} where
  -- `swap`: `renamex_np` with `RENAME_SWAP`, which wants both to be there; an outcome stands for any
  -- other error of it.
  unfoldable pub swap : (left right : FilePath) → Step App Service (Unit {0})
  swap left right mac = elim (first_of mac.swaps) [
    | some e ↦
        (err ("atomic application swap failed" ∷ e), record mac { swaps = rest_of mac.swaps })
    | none ↦
        if both (mac.apps left) (mac.apps right)
        then (ok tt, record mac { apps = exchanged left right mac.apps; swaps = rest_of mac.swaps })
        else (
          err ("atomic application swap failed" ∷ "No such file or directory" ∷ []),
          record mac { swaps = rest_of mac.swaps },
        )
  ]

  -- `start_app`; the child runs what stands at the target.
  unfoldable pub start_app : Job → Bool → Step App Service ℕ
  start_app job health mac =
      let (r, rest) = spawned mac.spawns in
      elim r [
        | err e ↦ (err ("starting LinkPilot" ∷ e), record mac { spawns = rest })
        | ok pid ↦ (
          ok pid,
          record mac {
            spawns = rest;
            started =
                record { app = mac.apps job.target; health = health; pid = pid } ∷ mac.started;
          },
        )
      ]

  -- `let _ = child.kill(); child.wait()?`
  unfoldable pub kill_and_wait : ℕ → Step App Service (Unit {0})
  kill_and_wait pid mac = elim (first_of mac.waits) [
    | some e ↦ (err e, record mac { killed = pid ∷ mac.killed; waits = rest_of mac.waits })
    | none ↦ (ok tt, record mac { killed = pid ∷ mac.killed; waits = rest_of mac.waits })
  ]

  -- One of the closures on the daemon's service.
  abbrev pub on_service : Task Service Anyhow (Unit {0}) → Step App Service (Unit {0})
  on_service = within (λ mac. mac.service) (λ s mac. record mac { service = s }) (λ e. e)

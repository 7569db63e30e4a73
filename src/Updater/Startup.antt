-- ===== src/Updater/Startup.antt =====
-- The start of the updated app (crates/updater/src/lib.rs): the arguments that `start_app` passes, and
-- `acknowledge_startup` in the app that was started. `Handshake` has theorems.
pub mod Handshake
use link_pilot.Prelude.{
  ℕ, String, Bool, true, false, Option, none, some, List, [], ◌∷◌, any, Result, ok, err, ◌>>=◌,
  ◌>>◌, if◌then◌else◌, ◌==◌,
}
use link_pilot.Prelude.Anyhow.{Anyhow, anyhow}
use link_pilot.Core.Files.{FilePath, join, path_eq}
use link_pilot.Updater.Jobs.{Job, Machine, Health, job_path, health_path, guard, app_root, load_job}

abbrev pub background_arg : String
background_arg = "--linkpilot-update-background"

abbrev pub job_arg : String
job_arg = "--linkpilot-update-job"

abbrev pub token_arg : String
token_arg = "--linkpilot-update-token"

-- The program of `start_app`.
abbrev pub app_program : Job → FilePath
app_program job = join (join (join job.target "Contents") "MacOS") "linkpilot-desktop"

-- What `std::env::args` gives in the app that `start_app` starts; `show_path` is the text of a path.
unfoldable pub start_args : (FilePath → String) → Job → Bool → List String
start_args show_path job true =
    show_path (app_program job)
    ∷ background_arg
    ∷ job_arg
    ∷ show_path (job_path job)
    ∷ token_arg
    ∷ job.token
    ∷ []
start_args show_path job false = show_path (app_program job) ∷ background_arg ∷ []

unfoldable pub background_restart : List String → Bool
background_restart args = any (λ arg. arg == background_arg) args

abbrev head : List String → Option String
head [] = none
head (arg ∷ args) = some arg

-- Where a name stands among the arguments, the argument behind it, if there is one.
unfoldable pub arg_after : String → List String → Option (Option String)
arg_after name [] = none
arg_after name (arg ∷ args) =
    let later = arg_after name args in if arg == name then some (head args) else later

-- `.and_then(|i| args.get(i + 1))`
abbrev flat : Option (Option String) → Option String
flat none = none
flat (some arg) = arg

-- The system of the app: its program, the version of a bundle, its process, and paths from texts.
pub record Startup : Type 0 where
  pub current_exe : Result FilePath Anyhow
  pub version_of : FilePath → Result String Anyhow
  pub pid : ℕ
  pub path_of : String → FilePath

-- The file that is written, and what is written to it.
abbrev pub Written : Type 0
Written = Option (FilePath × Health)

module _ (machine : Machine) (startup : Startup) where
  -- The checks of the job that was loaded.
  unfoldable pub acknowledge_job : String → Job → Result Written Anyhow
  acknowledge_job token job = startup.current_exe >>= λ exe. app_root machine exe >>= λ root.
      guard (path_eq root job.target) "Update acknowledgement from wrong installation"
      >> (startup.version_of job.target >>= λ version.
          guard (version == job.version) "Update acknowledgement version mismatch"
          >> ok (
              some
                (health_path job, record { token = token; version = version; pid = startup.pid })))

  unfoldable pub acknowledge_token : String → Option String → Result Written Anyhow
  acknowledge_token path none = err (anyhow "missing update token")
  acknowledge_token path (some token) =
      load_job machine (startup.path_of path) token >>= λ job. acknowledge_job token job

  unfoldable pub acknowledge_path : List String → Option (Option String) → Result Written Anyhow
  acknowledge_path args none = ok none
  acknowledge_path args (some none) = err (anyhow "missing update job")
  acknowledge_path args (some (some path)) =
      acknowledge_token path (flat (arg_after token_arg args))

  unfoldable pub acknowledge_startup : List String → Result Written Anyhow
  acknowledge_startup args = acknowledge_path args (arg_after job_arg args)

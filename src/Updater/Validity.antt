-- ===== src/Updater/Validity.antt =====
-- Which jobs the updater's worker takes on (crates/updater/src/lib.rs, `load_job`).
use link_pilot.Prelude.{
  ◌<◌, String, subst, ◌>>=◌, ◌≡◌, ◌↔◌, refl, Bool, true, false, not, ◌&&◌, Option, none, some,
  Result, ok, arith, eqb, leb, ◌==◌, eq_iff, ◌%◌, ◌⧺◌, starts_with, starts_with_iff, Result-cases,
  inl, inr, ap, ◌∙◌,
}
use link_pilot.Prelude.Anyhow.{Anyhow}
use link_pilot.Core.Files.{FilePath, path_eq, path_eq_iff, parent, file_name}
use link_pilot.Updater.Jobs.{
  Job, job_path, FileMeta, Machine, update_prefix, is_app, check_file, check_canonical, check_job,
  load_job, same_parent, is_private, guard, invalid,
}

-- A path without links.
abbrev IsCanonical : Machine → FilePath → Type 0
IsCanonical machine path = machine.canonicalize path ≡ ok path

check_canonical_iff :
    (machine : Machine) (path : FilePath)
    → (check_canonical machine path ≡ ok tt) ↔ IsCanonical machine path
unfolding check_canonical
check_canonical_iff machine path = elim (Result-cases (machine.canonicalize path)) [
  | inl (c, there) ↦
      (λ h. ground (arith, path_eq_iff c path), λ h. ground (arith, path_eq_iff c path))
  | inr (e, failed) ↦ (λ h. ground arith, λ h. ground arith)
]

module _ {A B : Type 0} (next : A → Result B Anyhow) {end : B} where
  -- A chain that ends well has a first step that ended well.
  first_step :
      (r : Result A Anyhow) → (r >>= next) ≡ ok end → (a : A) × (r ≡ ok a) × (next a ≡ ok end)
  first_step r ends = elim (Result-cases r) [
    | inl (a, good) ↦ (a, good, rw good at ends)
    | inr (e, bad) ↦ cc (rw bad at ends)
  ]

guard_ok : (b : Bool) (message : String) {u : Unit {0}} → guard b message ≡ ok u → b ≡ true
guard_ok true message h = refl
guard_ok false message h = cc

same_parent_lem : (a b : Option FilePath) → same_parent a b ≡ true → a ≡ b
same_parent_lem none none h = refl
same_parent_lem none (some b) h = cc
same_parent_lem (some a) none h = cc
same_parent_lem (some a) (some b) h = ap (λ p. some p) ((path_eq_iff a b).0 h)

is_app_lem : (o : Option String) → is_app o ≡ true → o ≡ some "app"
is_app_lem none h = cc
is_app_lem (some ext) h = ap (λ e. some e) ((eq_iff ext "app").0 h)

-- The checks of a job that was read.
pub record IsChecked (machine : Machine) (path : FilePath) (token : String) (job : Job)
    : Type 0 where
  pub a_uuid : machine.is_uuid token ≡ true
  pub same_token : token ≡ job.token
  pub own_path : path ≡ job_path job
  pub named : (rest : String) × (file_name job.workspace ≡ update_prefix ⧺ rest)
  pub beside : parent job.workspace ≡ parent job.target
  pub workspace_canonical : machine.canonicalize job.workspace ≡ ok job.workspace
  pub folder : FileMeta
  pub looked_up : machine.metadata job.workspace ≡ ok folder
  pub private_folder : folder.mode % 64 ≡ 0
  pub an_app : machine.extension job.target ≡ some "app"
  pub target_canonical : machine.canonicalize job.target ≡ ok job.target
  pub updates_canonical : machine.canonicalize job.updates ≡ ok job.updates
  pub a_process : 1 < job.old_pid

and3 : (a b c : Bool) → (a && (b && c)) ≡ true → (a ≡ true) × (b ≡ true) × (c ≡ true)
and3 true true true h = (refl, refl, refl)
and3 true true false h = cc
and3 true false c h = cc
and3 false b c h = cc

and2 : (a b : Bool) → (a && b) ≡ true → (a ≡ true) × (b ≡ true)
and2 true true h = (refl, refl)
and2 true false h = cc
and2 false b h = cc

check_job-IsChecked :
    (machine : Machine) (path : FilePath) (token : String) (job : Job) {u : Unit {0}}
    → check_job machine path token job ≡ ok u
    → IsChecked machine path token job
unfolding check_job
check_job-IsChecked machine path token job h =
    let (u1, g1, h1) = first_step _ (guard _ _) h in
    let (uuid, same, own) =
      and3 (machine.is_uuid token) (token == job.token) (path_eq path (job_path job))
        (guard_ok _ invalid g1) in
    let (u2, g2, h2) = first_step _ (guard _ _) h1 in
    let (named, beside) =
      and2 (starts_with (file_name job.workspace) update_prefix)
        (same_parent (parent job.workspace) (parent job.target)) (guard_ok _ invalid g2) in
    let (u3, g3, h3) = first_step _ (check_canonical machine job.workspace) h2 in
    let (folder, g4, h4) = first_step _ (machine.metadata job.workspace) h3 in
    let (u5, g5, h5) = first_step _ (guard (is_private folder) invalid) h4 in
    let (u6, g6, h6) = first_step _ (guard (is_app (machine.extension job.target)) invalid) h5 in
    let (u7, g7, h7) = first_step _ (check_canonical machine job.target) h6 in
    let (u8, g8, h8) = first_step _ (check_canonical machine job.updates) h7 in
    let private_ = guard_ok (is_private folder) invalid g5 in
    let pid = guard_ok (not (leb job.old_pid 1)) invalid h8 in
    record {
      a_uuid = uuid;
      same_token = (eq_iff token job.token).0 same;
      own_path = (path_eq_iff path (job_path job)).0 own;
      named = (starts_with_iff (file_name job.workspace) update_prefix).0 named;
      beside = same_parent_lem (parent job.workspace) (parent job.target) beside;
      workspace_canonical = (check_canonical_iff machine job.workspace).0 g3;
      folder = folder;
      looked_up = g4;
      private_folder = ground (arith, private_);
      an_app = is_app_lem (machine.extension job.target) (guard_ok _ invalid g6);
      target_canonical = (check_canonical_iff machine job.target).0 g7;
      updates_canonical = (check_canonical_iff machine job.updates).0 g8;
      a_process = ground (arith, pid);
    }

-- What is known of a job that is taken on.
pub record IsValid (machine : Machine) (path : FilePath) (token : String) (job : Job) : Type 0 where
  pub file : FileMeta
  pub found : machine.symlink_metadata path ≡ ok file
  pub regular : file.is_file ≡ true
  pub owned : file.uid ≡ machine.uid
  pub private_file : file.mode % 64 ≡ 0
  pub text : String
  pub was_read : machine.read path ≡ ok text
  pub parsed : machine.job_of text ≡ ok job
  pub checked : IsChecked machine path token job

-- A job is taken on only from a private regular file of the user that reads as the job, with its
-- token, at its place in a private workspace of the right name beside the installed app, all
-- without links, and with the number of a process.
pub load_job-IsValid :
    (machine : Machine) (path : FilePath) (token : String) (job : Job)
    → load_job machine path token ≡ ok job
    → IsValid machine path token job
unfolding load_job check_file
load_job-IsValid machine path token job h =
    let (u0, c0, h0) = first_step _ (check_file machine path) h in
    let (file, f0, f1) = first_step _ (machine.symlink_metadata path) c0 in
    let (regular, owned, private_) =
      and3 file.is_file (eqb file.uid machine.uid) (is_private file)
        (guard_ok _ "Update job must be a private file owned by the current user" f1) in
    let (text, r0, h1) = first_step _ (machine.read path) h0 in
    let (job', p0, h2) = first_step _ (machine.job_of text) h1 in
    let (u1, k0, h3) = first_step _ (check_job machine path token job') h2 in
    let same : job' ≡ job = ground arith in
    record {
      file = file;
      found = f0;
      regular = regular;
      owned = ground (arith, owned);
      private_file = ground (arith, private_);
      text = text;
      was_read = r0;
      parsed = p0 ∙ ap (λ j. ok j) same;
      checked =
          subst (IsChecked machine path token) same
            (check_job-IsChecked machine path token job' k0);
    }

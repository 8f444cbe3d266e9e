-- ===== src/Lifecycle/Requests.antt =====
-- What the calls of the store and of the storage keep, every request to the HTTP server keeps, whatever
-- it answers.
use openenvx_cloud.Prelude.{ℕ, ◌≡◌, refl, String, Bool, true, false, List, Option, none, some}
use openenvx_cloud.Models.{pending_plan, approved, queued, cancelled, JobStatus, Bytes, Job}
use openenvx_cloud.World.{Result, ok, err, Env}
use openenvx_cloud.World.Keeps.{
  Claim, StableTables, StableBucket, Keeps, Keeps-pure, Keeps-raise, Keeps-attempt, Keeps-rewrap,
  Keeps-if, ◌⊳◌,
}
use openenvx_cloud.Db.Jobs.{NewJob, create_job as add_job}
use openenvx_cloud.Db.Projects.{unlock_project_state, unlock_active, cancel_if_lock}
use openenvx_cloud.Storage.{ObjectInfo, get_project_state_path, upload}
use openenvx_cloud.Storage.Keeps.{stat-Keeps, download-Keeps}
use openenvx_cloud.Auth.{Identity, middleware, verified}
use openenvx_cloud.Api.Jobs.{
  create_checked, handle_create_job, handle_get_job, approve_found, handle_approve_job,
  discard_found, handle_discard_job,
}
use openenvx_cloud.Api.Projects.{
  get_state_found, handle_get_project_state, handle_post_project_state, handle_lock_project_state,
  handle_unlock_project_state,
}
use openenvx_cloud.Api.Routes.{
  Request, create_job, get_job, approve_job, discard_job, get_state, post_state, lock_state,
  unlock_state, stream_logs, handle, serve,
}
use openenvx_cloud.Lifecycle.Frame.{
  is_resting, KeepsCalls, get_job-Keeps, get_active_job_for_project-Keeps, is_project_active-Keeps,
  verify_user_and_org-Keeps,
}

-- What requests need: the calls of a new job and of a state, and the three handlers that give a job
-- another status.
pub record KeepsRequests (env : Env) (P : Claim) : Type 0 where
  pub stable : StableTables env P
  pub stable_bucket : StableBucket env P
  pub state_upload :
      (id : String) (content : Bytes)
      → Keeps P (upload env (get_project_state_path id) content "application/json")
  pub creation : (n : NewJob) (s : JobStatus) → is_resting s ≡ true → Keeps P (add_job env n s)
  pub approval : (id : String) → Keeps P (handle_approve_job env id)
  pub discarding : (id : String) → Keeps P (handle_discard_job env id)
  pub unlocking : (id lock_id : String) → Keeps P (unlock_project_state env id lock_id)

module _ (env : Env) {P : Claim} (calls : KeepsCalls env P) where
  approve-Keeps : (id : String) → Keeps P (handle_approve_job env id)
  unfolding handle_approve_job
  approve-Keeps id = Keeps-attempt _ (get_job-Keeps env calls.stable id) ⊳ found
    where
      found : (r : Result Job) → Keeps P (approve_found env id r)
      found (err e) = Keeps-pure _
      found (ok j) =
          Keeps-if _ _ _ (Keeps-pure _)
            (Keeps-attempt _ (calls.status id approved refl) ⊳ λ done. Keeps-pure _)

  discard-Keeps : (id : String) → Keeps P (handle_discard_job env id)
  unfolding handle_discard_job
  discard-Keeps id = Keeps-attempt _ (get_job-Keeps env calls.stable id) ⊳ found
    where
      found : (r : Result Job) → Keeps P (discard_found env id r)
      found (err e) = Keeps-pure _
      found (ok j) =
          Keeps-if _ _ _ (Keeps-pure _)
            (Keeps-attempt _ (calls.status id cancelled refl) ⊳ λ done. Keeps-pure _)

  unlock-Keeps : (id lock_id : String) → Keeps P (unlock_project_state env id lock_id)
  unfolding unlock_project_state cancel_if_lock
  unlock-Keeps id lock_id =
      Keeps-attempt _ (get_active_job_for_project-Keeps env calls.stable id) ⊳ found
    where
      found : (r : Result Job) → Keeps P (unlock_active env lock_id r)
      found (err e) = Keeps-if _ _ _ (Keeps-pure tt) (Keeps-raise _)
      found (ok j) =
          Keeps-if _ _ _ (Keeps-rewrap _ _ (calls.status j.id cancelled refl)) (Keeps-raise _)

  pub calls-KeepsRequests : KeepsRequests env P
  calls-KeepsRequests = record {
    stable = calls.stable;
    stable_bucket = calls.stable_bucket;
    state_upload = calls.state_upload;
    creation = calls.creation;
    approval = approve-Keeps;
    discarding = discard-Keeps;
    unlocking = unlock-Keeps;
  }

module _ (env : Env) {P : Claim} (calls : KeepsRequests env P) where
  create-Keeps : (n : Option NewJob) → Keeps P (handle_create_job env n)
  unfolding handle_create_job
  create-Keeps none = Keeps-pure _
  create-Keeps (some n) =
      Keeps-if _ _ _ (Keeps-pure _)
        (Keeps-attempt _ (is_project_active-Keeps env calls.stable n.project_id) ⊳ checked)
    where
      checked : (active : Result Bool) → Keeps P (create_checked env n active)
      checked (err e) = Keeps-pure _
      checked (ok true) = Keeps-attempt _ (calls.creation n queued refl) ⊳ λ made. Keeps-pure _
      checked (ok false) =
          Keeps-attempt _ (calls.creation n pending_plan refl) ⊳ λ made. Keeps-pure _

  get_state-Keeps : (id : String) → Keeps P (handle_get_project_state env id)
  unfolding handle_get_project_state
  get_state-Keeps id = Keeps-attempt _ (stat-Keeps env calls.stable_bucket _) ⊳ found _
    where
      found : (name : String) (r : Result ObjectInfo) → Keeps P (get_state_found env name r)
      found name (err e) = Keeps-pure _
      found name (ok i) =
          Keeps-attempt _ (download-Keeps env calls.stable_bucket name) ⊳ λ c. Keeps-pure _

  post_state-Keeps :
      (id : String) (content : List ℕ) → Keeps P (handle_post_project_state env id content)
  unfolding handle_post_project_state
  post_state-Keeps id content =
      Keeps-attempt _ (calls.state_upload id content) ⊳ λ done. Keeps-pure _

  handle-Keeps : (q : Request) → Keeps P (handle env q)
  unfolding handle handle_get_job handle_lock_project_state handle_unlock_project_state
  handle-Keeps (create_job n) = create-Keeps n
  handle-Keeps (get_job id) =
      Keeps-attempt _ (get_job-Keeps env calls.stable id) ⊳ λ r. Keeps-pure _
  handle-Keeps (approve_job id) = calls.approval id
  handle-Keeps (discard_job id) = calls.discarding id
  handle-Keeps (get_state id) = get_state-Keeps id
  handle-Keeps (post_state id content) = post_state-Keeps id content
  handle-Keeps (lock_state id) =
      Keeps-attempt _ (get_active_job_for_project-Keeps env calls.stable id) ⊳ λ r. Keeps-pure _
  handle-Keeps (unlock_state id none query) = Keeps-pure _
  handle-Keeps (unlock_state id (some payload) query) =
      Keeps-attempt _ (calls.unlocking id _) ⊳ λ r. Keeps-pure _
  handle-Keeps (stream_logs id events broker) = Keeps-pure _

  pub serve-Keeps :
      (trim : String → String) (token : String) (c : Option (String × String)) (q : Request)
      → Keeps P (serve env trim token c q)
  unfolding serve middleware
  serve-Keeps trim token none q = Keeps-pure _
  serve-Keeps trim token (some (user, password)) q = Keeps-if _ _ _ (handle-Keeps q) (
      Keeps-attempt _ (verify_user_and_org-Keeps env calls.stable _ _)
      ⊳ checked (record { user_id = trim user; org_id = trim password }))
    where
      checked :
          (i : Identity) (r : Result Bool)
          → Keeps P (verified env trim token (λ _. handle env q) i r)
      checked i (err e) = Keeps-pure _
      checked i (ok false) = Keeps-pure _
      checked i (ok true) = handle-Keeps q

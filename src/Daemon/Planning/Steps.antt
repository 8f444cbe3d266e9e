-- ===== src/Daemon/Planning/Steps.antt =====
-- The command of `handlePlan` and `handleDestroy` with its hooks and the check for cancellation, where
-- tools and services work.
use mathlib.Core.List.{Memᴰ}
use openenvx_cloud.Prelude.{
  ◌∙◌, ℕ, suc, ◌≡◌, refl, ap, inl, inr, String, Bool, List, [], ◌∷◌, none, Bool-cases,
}
use openenvx_cloud.Models.{cancelled, status_eq, Bytes, JobRow}
use openenvx_cloud.World.{binary, World, Env, M, pure, statement}
use openenvx_cloud.World.Succeeds.{
  Succeeds, Succeeds-bind, Succeeds-pure, Succeeds-rewrap, Succeeds-host_call, Succeeds-statement,
}
use openenvx_cloud.Db.Lookup.{select_by_id-row}
use openenvx_cloud.Db.Jobs.{select_by_id, get_job}
use openenvx_cloud.Terraform
use openenvx_cloud.Terraform.{
  Host, ToolRun, clean, write, write_in, keep_plan, run_tool, finished, shown,
}
use openenvx_cloud.Daemon.Hooks.{
  after_hook, hook_result, scan_result, run_hook, run_hooks, with_hooks, with_cancellation_check,
}
use openenvx_cloud.Daemon.Handlers.{read_dir, plan_command}
use openenvx_cloud.Daemon.Planning.{IsWorking, LeavePlan, Ready, Planned, read_dir-write_in}

module _ (env : Env) (host : Host) (working : IsWorking env host) where
  -- What does not look at the messages, the log and the number of calls holds after hooks.
  abbrev pub IsSilent : (World → Type 0) → Type 0
  IsSilent P =
      (w : World) (published : List (String × Bytes)) (log : Bytes) (tick : ℕ)
      → P w
      → P (record w { published = published; log = log; tick = tick })

  -- What holds before one of these hooks holds after it.
  abbrev pub Survives : (World → Type 0) → List Bytes → Type 0
  Survives P hooks =
      (h : Bytes)
      → Memᴰ h hooks
      → (w : World) (published : List (String × Bytes)) (log : Bytes) (tick : ℕ) → P w
      → P (record w {
        published = published;
        log = log;
        tick = tick;
        work_dir = (host.hook w.tick h w.work_dir).left;
      })

  module _ (P : World → Type 0) where
    pub run_hook-Succeeds :
        (id : String) (hook : Bytes)
        → Survives P (hook ∷ [])
        → Succeeds P (run_hook env host id hook) (λ _. P)
    unfolding run_hook after_hook hook_result scan_result
    run_hook-Succeeds id hook survives = Succeeds-host_call _ λ w p.
        rw
          (
            working.starts w.tick hook w.work_dir,
            working.exits w.tick hook w.work_dir,
            working.scanned w.tick hook w.work_dir,
          )
          (tt, refl, survives hook (Memᴰ.head refl) w _ _ _ p)

    pub run_hooks-Succeeds :
        (id : String) (hooks : List Bytes)
        → Survives P hooks
        → Succeeds P (run_hooks env host id hooks) (λ _. P)
    unfolding run_hooks
    run_hooks-Succeeds id [] survives = Succeeds-pure tt (λ w p. p)
    run_hooks-Succeeds id (hook ∷ hooks) survives =
        Succeeds-bind
          (run_hook-Succeeds id hook
            λ h m. survives h (elim m [ Memᴰ.head q ↦ Memᴰ.head q | Memᴰ.tail n ↦ elim n [ ] ]))
          λ _. run_hooks-Succeeds id hooks λ h m. survives h (Memᴰ.tail m)

  pub Ready-IsSilent : (r : JobRow) → IsSilent (Ready r)
  Ready-IsSilent r w _ _ _ p = record {
    well_formed = p.well_formed;
    listed = p.listed;
    bucket = p.bucket;
    dir = p.dir;
  }

  pub Ready-Survives : (r : JobRow) (hooks : List Bytes) → Survives (Ready r) hooks
  Ready-Survives r hooks h m w _ _ _ p =
      let (fs, e) = p.dir in
      record {
        well_formed = p.well_formed;
        listed = p.listed;
        bucket = p.bucket;
        dir = rw e (working.stays w.tick h fs);
      }

  module _ (destroy : Bool) where
    pub Planned-Survives :
        (r : JobRow) (hooks : List Bytes)
        → LeavePlan host hooks
        → Survives (Planned host destroy r) hooks
    Planned-Survives r hooks leave h m w published log tick (p, (content, made, e)) = (
      Ready-Survives r hooks h m w published log tick p,
      (content, made, leave h m w.tick w.work_dir ∙ e),
    )

    pub Planned-IsSilent : (r : JobRow) → IsSilent (Planned host destroy r)
    Planned-IsSilent r w published log tick (p, c) = (Ready-IsSilent r w published log tick p, c)

    pub run_plan-Succeeds :
        (r : JobRow)
        → Succeeds
            (Ready r)
            (run_tool host (λ t dir. host.plan t destroy dir))
            (λ run w. (run.failure ≡ none) × Planned host destroy r w)
    unfolding run_tool keep_plan write_in read_dir
    run_plan-Succeeds r = Succeeds-host_call _ λ w p.
        let (fs, e) = p.dir in
        let (b, f) = working.plan_files w.tick destroy w.work_dir in
        (
          _,
          refl,
          (
            working.plans w.tick destroy w.work_dir,
            (
              record {
                well_formed = p.well_formed;
                listed = p.listed;
                bucket = p.bucket;
                dir = (write "tfplan" (binary b) fs, rw f (ap (write_in "tfplan" (binary b)) e));
              },
              (b, (w.tick, w.work_dir, f), rw f (read_dir-write_in "tfplan" b fs w.work_dir e)),
            ),
          ),
        )

    pub finished-Succeeds :
        (P : World → Type 0) (label : String) (run : ToolRun)
        → Succeeds (λ w. (run.failure ≡ none) × P w) (finished host label run) (λ _. P)
    unfolding finished pure
    finished-Succeeds P label run = record {
      at = λ w (e, p). rw (finished, e) (run.stdout, refl, p);
    }

    pub plan_command-Succeeds :
        (r : JobRow) (label : String)
        → Succeeds (Ready r) (plan_command env host destroy label) (λ _. Planned host destroy r)
    unfolding plan_command Terraform.plan
    plan_command-Succeeds r label =
        Succeeds-bind
          (Succeeds-rewrap _ (
            Succeeds-bind (run_plan-Succeeds r)
              λ run. finished-Succeeds (Planned host destroy r) "terraform plan failed" run))
          λ _. Succeeds-pure tt λ w p. p

    pub select_by_id-Succeeds :
        (r : JobRow)
        → Succeeds
            (Planned host destroy r)
            (statement env (select_by_id env r.id))
            (λ _. Planned host destroy r)
    select_by_id-Succeeds r = Succeeds-statement env working.answered _ λ w (p, c).
        let (org, o) = p.well_formed.owned r p.listed in
        rw
          (
            working.alone w.tick w.db,
            select_by_id-row env working.scans w.tick w.db p.well_formed r p.listed org o,
          )
          (_, refl, (Ready-IsSilent r w w.published w.log (suc w.tick) p, c))

    pub get_job-Succeeds :
        (r : JobRow)
        → Succeeds (Planned host destroy r) (get_job env r.id) (λ _. Planned host destroy r)
    unfolding get_job
    get_job-Succeeds r = Succeeds-rewrap _ (select_by_id-Succeeds r)

    pub checked-Succeeds :
        (r : JobRow) (m : M (Unit {0}))
        → Succeeds (Ready r) m (λ _. Planned host destroy r)
        → Succeeds (Ready r) (with_cancellation_check env host r.id m) (λ _. Planned host destroy r)
    unfolding with_cancellation_check
    checked-Succeeds r m s = Succeeds-bind s λ _.
        Succeeds-bind (Succeeds-rewrap _ (get_job-Succeeds r)) λ current.
          elim (Bool-cases (status_eq current.status cancelled)) [
            | inl e ↦ rw e (Succeeds-pure tt λ w p. p)
            | inr e ↦ rw e (Succeeds-pure tt λ w p. p)
          ]

    pub hooked-Succeeds :
        (r : JobRow) (pre post : List Bytes) (m : M (Unit {0}))
        → LeavePlan host post
        → Succeeds (Ready r) m (λ _. Planned host destroy r)
        → Succeeds (Ready r) (with_hooks env host r.id pre post m) (λ _. Planned host destroy r)
    unfolding with_hooks
    hooked-Succeeds r pre post m leave s =
        Succeeds-bind (run_hooks-Succeeds (Ready r) r.id pre (Ready-Survives r pre)) λ _.
          Succeeds-bind s λ _.
            run_hooks-Succeeds (Planned host destroy r) r.id post (Planned-Survives r post leave)

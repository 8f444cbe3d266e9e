-- ===== src/Daemon/Planning/Storing.antt =====
-- The end of `handlePlan` and `handleDestroy`: the plan is shown, read, uploaded and written to its row.
use openenvx_cloud.Prelude.{suc, ◌≡◌, refl, String, Bool, [], ◌∷◌, none}
use openenvx_cloud.Models.{planned, Bytes, JobRow, Job}
use openenvx_cloud.World.{Env, pure}
use openenvx_cloud.World.Succeeds.{
  Succeeds, Succeeds-bind, Succeeds-rewrap, Succeeds-weaken, Succeeds-fact, Succeeds-host_call,
  Succeeds-statement, Succeeds-object_call,
}
use openenvx_cloud.Db.Claims.{with_labels_lem}
use openenvx_cloud.Db.Jobs.{set_plan_result, update_job_plan_result, set_status, update_job_status}
use openenvx_cloud.Storage.{put_in, upload}
use openenvx_cloud.Storage.Objects.{get_object-put_object_self}
use openenvx_cloud.Terraform
use openenvx_cloud.Terraform.{
  Host, ToolRun, clean, write, write_in, keep_plan, run_tool, finished, shown,
}
use openenvx_cloud.Daemon.Handlers.{plan_object, read_plan, store_plan}
use openenvx_cloud.Daemon.Planning.{
  IsWorking, Ready, IsPlan, Planned, Stored, IsDescribed, Listed, Described, Made, Finished,
  updated, updated-listed,
}
use openenvx_cloud.Daemon.Planning.Steps.{Ready-IsSilent, Planned-IsSilent}

module _ (env : Env) (host : Host) (working : IsWorking env host) where
  module _ (destroy : Bool) where
    pub shown-Succeeds :
        (r : JobRow) (run : ToolRun) (out : Bytes)
        → Succeeds
            (λ w. (run.failure ≡ none) × Planned host destroy r w)
            (shown host run out)
            (λ _. Planned host destroy r)
    unfolding shown pure
    shown-Succeeds r run out = record { at = λ w (e, p). rw (shown, e) (_, refl, p) }

    pub show-Succeeds :
        (r : JobRow)
        → Succeeds (Planned host destroy r) (Terraform.show host) (λ _. Planned host destroy r)
    unfolding Terraform.show
    show-Succeeds r =
        Succeeds-bind {Q = λ x w. (x.0.failure ≡ none) × Planned host destroy r w}
          (Succeeds-host_call _ λ w p. (
            _,
            refl,
            (
              working.shows w.tick w.work_dir,
              Planned-IsSilent env host working destroy r w w.published w.log (suc w.tick) p,
            ),
          ))
          λ x. shown-Succeeds r x.0 x.1

    pub read_plan-Succeeds :
        (r : JobRow)
        → Succeeds
            (Planned host destroy r)
            (read_plan env host)
            (λ content w. IsPlan host destroy content × Ready r w)
    unfolding read_plan
    read_plan-Succeeds r = Succeeds-host_call _ λ w (p, (c, made, e)).
        rw (working.files w.tick)
          (c, e, (made, Ready-IsSilent env host working r w w.published w.log (suc w.tick) p))

    pub upload-Succeeds :
        (r : JobRow) (content : Bytes) (content_type : String)
        → Succeeds
            (Ready r)
            (upload env (plan_object r.id) content content_type)
            (λ _ w. Ready r w × Stored r content w)
    unfolding upload put_in
    upload-Succeeds r content content_type = Succeeds-rewrap _ (
        Succeeds-object_call env working.answered _ λ w p.
          let (m, e) = p.bucket in
          rw (working.own_bucket w.tick w.bucket, e)
            (
              plan_object r.id,
              refl,
              (
                record {
                  well_formed = p.well_formed;
                  listed = p.listed;
                  bucket = (_, refl);
                  dir = p.dir;
                },
                (_, _, refl, get_object-put_object_self (plan_object r.id) _ m, refl),
              ),
            ))

    pub plan_result-Succeeds :
        (r : JobRow) (content summary : Bytes)
        → Succeeds
            (λ w. Ready r w × Stored r content w)
            (update_job_plan_result env r.id (plan_object r.id) summary)
            (λ _ w. Listed r w × Stored r content w × Described r summary w)
    unfolding update_job_plan_result set_plan_result
    plan_result-Succeeds r content summary = Succeeds-rewrap _ (
        Succeeds-statement env working.answered _ λ w (p, s). rw (working.alone w.tick w.db) (
          tt,
          refl,
          (
            updated-listed r.id _ w.db.jobs (λ x. refl) r p.listed refl,
            s,
            updated r.id _ (IsDescribed r summary) w.db.jobs (λ x. refl) (λ x m i. (refl, refl)),
          ),
        ))

    pub to_planned-Succeeds :
        (r : JobRow) (content summary : Bytes)
        → Succeeds
            (λ w. Listed r w × Stored r content w × Described r summary w)
            (update_job_status env r.id planned)
            (λ _ w. Made r content summary w)
    unfolding update_job_status set_status
    to_planned-Succeeds r content summary = Succeeds-rewrap _ (
        Succeeds-statement env working.answered _ λ w (l, s, d).
          rw
            (
              working.alone w.tick w.db,
              with_labels_lem env (planned ∷ []) _ _ (working.labelled, tt),
            )
            (
              tt,
              refl,
              record {
                stored = s;
                listed = let (x, m, i) = l in updated-listed r.id _ w.db.jobs (λ y. refl) x m i;
                rows =
                    updated r.id _ (λ x. (x.status ≡ planned) × IsDescribed r summary x) w.db.jobs
                      (λ x. refl) (λ x m i. (refl, d x m i));
              },
            ))

    pub store_plan-Succeeds :
        (job : Job) (label : String)
        → Succeeds
            (Planned host destroy job.row)
            (store_plan env host label job)
            (λ _. Finished host destroy job.row)
    unfolding store_plan
    store_plan-Succeeds job label =
        Succeeds-bind (Succeeds-rewrap _ (show-Succeeds job.row)) λ summary.
          Succeeds-bind (Succeeds-rewrap _ (read_plan-Succeeds job.row)) λ content.
            Succeeds-fact λ planned.
              Succeeds-bind (Succeeds-rewrap _ (upload-Succeeds job.row content _)) λ _.
                Succeeds-bind (Succeeds-rewrap _ (plan_result-Succeeds job.row content summary))
                  λ _. Succeeds-rewrap _ (
                    Succeeds-weaken (to_planned-Succeeds job.row content summary)
                      λ _ w made. (content, summary, planned, made))

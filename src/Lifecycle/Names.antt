-- ===== src/Lifecycle/Names.antt =====
-- The names under which jobs and projects keep their objects: those of internal/storage/paths.go and
-- the ones that internal/daemon writes out.
use text.Mathlib.TextLemmas.{
  append_inj, append_assoc, append_cancel_left, append_cancel_right, length-append,
}
use Prim.Native.String.{count}
use openenvx_cloud.Prelude.{◌≡◌, ◌≢◌, refl, ap, sym, ◌∙◌, String, ◌<>◌, arith, eq_iff}
use openenvx_cloud.Storage.{get_project_state_path}
use openenvx_cloud.Daemon.Handlers.{plan_object}
use openenvx_cloud.Daemon.Worker.{run_log}

-- Texts that differ in their first letter, and in their last.
starts_apart : (a b s t : String) → count a ≡ 1 → count b ≡ 1 → a ≢ b → a <> s ≢ b <> t
starts_apart a b s t m n other e = other (append_inj e (m ∙ sym n)).0

ends_apart : (a b s t : String) → count a ≡ 1 → count b ≡ 1 → a ≢ b → s <> a ≢ t <> b
ends_apart a b s t m n other e = other (append_inj e same).1
  where
    same : count s ≡ count t
    same = omega (arith, length-append s a, length-append t b, ap count e, m, n)

-- The plans of two jobs have two names.
pub plan_object-inj : (i j : String) → plan_object i ≡ plan_object j → i ≡ j
plan_object-inj i j e = append_cancel_right i j "/tfplan" (append_cancel_left "jobs/" _ _ e)

pub run_log-apart : (i j : String) → run_log i ≢ plan_object j
run_log-apart i j e =
    ends_apart "g" "n" (i <> "/run.lo") (j <> "/tfpla") refl refl (ground (arith, eq_iff "g" "n")) (
      append_assoc i "/run.lo" "g"
      ∙ append_cancel_left "jobs/" _ _ e
      ∙ sym (append_assoc j "/tfpla" "n"))

pub state_path-apart : (i j : String) → get_project_state_path i ≢ plan_object j
unfolding get_project_state_path
state_path-apart i j e =
    starts_apart "p" "j" ("rojects/" <> (i <> "/terraform.tfstate")) ("obs/" <> (j <> "/tfplan"))
      refl refl (ground (arith, eq_iff "p" "j"))
      (sym (append_assoc "p" "rojects/" (i <> "/terraform.tfstate"))
        ∙ e
        ∙ append_assoc "j" "obs/" (j <> "/tfplan"))

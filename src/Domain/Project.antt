-- ===== src/Domain/Project.antt =====
-- internal/domain/project: when a project may be revised or archived, and where it is resumed.
use tejun.Prelude.{String, Bool, true, false, Option, none, some, ◌==◌, ◌||◌, ◌+s◌, if◌then◌else◌}
use tejun.Shared.{Error, app_error}
use tejun.Database.Rows.{ProjectStatus}

-- CanRevise: nil or an error.
unfoldable pub can_revise : ProjectStatus → Option Error
can_revise ProjectStatus.completed = none
can_revise _ = some (app_error "invalid_project_state" "完成したプロジェクトだけ改訂できます")

-- CanArchive of a project without active jobs.
unfoldable pub can_archive_idle : ProjectStatus → Option Error
can_archive_idle ProjectStatus.archived = some (app_error "invalid_project_state" "既にアーカイブされています")
can_archive_idle _ = none

-- CanArchive
unfoldable pub can_archive : ProjectStatus → Bool → Option Error
unfolding can_archive_idle
can_archive status true = some (app_error "active_job" "処理中のプロジェクトはアーカイブできません")
can_archive status false = can_archive_idle status

-- ResumeRoute
unfoldable pub resume_route : String → String → String
resume_route id stage =
    if stage == "execution"
    then "#/projects/" +s id +s "/check"
    else if stage == "procedure" || stage == "completed"
    then "#/projects/" +s id +s "/procedure"
    else "#/projects/" +s id +s "/prepare"
